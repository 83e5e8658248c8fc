-- ===== src/Engine/Compacting.antt =====
-- src/engine.rs: `compact`, which applies compactions until none is picked, and 100 at most.
use flash_store.Prelude.{ℕ, zero, suc, ◌==◌, List, [], ◌∷◌, Option, none, some, if◌then◌else◌}
use flash_store.Compaction
use flash_store.Compaction.{Compactor, Compacted, pick_compaction, run_compaction}
use flash_store.Error.{Result, ok, ◌>>=◌}
use flash_store.External.{Bincode}
use flash_store.Manifest.{VersionEdit, VersionSet, take_file_number, log_edit, log_and_apply}
use flash_store.Tables.{Tables}
use flash_store.Engine.{Engine}
use flash_store.Engine.Flushing.{update_file}

-- `remove_file` for each deleted file.
unfoldable pub remove_files {ℓ} : {A : Type ℓ} → (ℕ → Option A) → List (ℕ × ℕ) → ℕ → Option A
remove_files files [] n = files n
remove_files files ((level, number) ∷ ds) n = if number == n then none else remove_files files ds n

-- A file number is taken only for an output that exists.
abbrev pub numbered {ℓ} : {A : Type ℓ} → VersionSet → Option A → VersionSet
numbered vs none = vs
numbered vs (some t) = (take_file_number vs).0

abbrev pub with_output {ℓ} : {A : Type ℓ} → (ℕ → Option A) → ℕ → Option A → ℕ → Option A
with_output files n none = files
with_output files n (some t) = update_file files n t

module _ {Table : Type 0} ⦃tables : Tables Table⦄ ⦃edit_codec : Bincode VersionEdit⦄ where
  unfoldable pub apply_compacted : Engine Table → Compacted Table → Engine Table
  apply_compacted s r = record s {
    manifest = log_edit s.manifest r.edit;
    version_set = log_and_apply (numbered s.version_set r.table) r.edit;
    files =
        remove_files (with_output s.files s.version_set.next_file_number r.table)
          r.edit.deleted_files;
  }

  unfoldable pub compact_loop : ℕ → Compactor → Engine Table → Result (Engine Table)
  compact_loop zero c s = ok s
  compact_loop (suc passes) c s = elim (pick_compaction c s.version_set.levels) [
    | none ↦ ok s
    | some task ↦
        run_compaction c task s.files s.version_set.next_file_number
        >>= (λ r. compact_loop passes c (apply_compacted s r))
  ]

  unfoldable pub compact : Engine Table → Result (Engine Table)
  compact s =
      compact_loop 100 (Compaction.new s.options.max_levels s.options.base_level_size_bytes) s
