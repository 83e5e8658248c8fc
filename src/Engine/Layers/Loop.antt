-- ===== src/Engine/Layers/Loop.antt =====
-- `compact` of src/engine.rs succeeds, changes no read, and keeps the layers in order.
use flash_store.Prelude.{
  ℕ, zero, suc, ◌≡◌, refl, sym, ◌∙◌, none, some, In, inl, inr, arith, length, Option-cases,
}
use flash_store.Compaction
use flash_store.Compaction.{
  Compactor, CompactionTask, Compacted, pick_compaction, run_compaction, write_entries,
}
use flash_store.Engine.{Engine, get}
use flash_store.Engine.Compacted.{
  apply_compacted-IsValid, run_compaction-NumbersFit, IfSome, numbered-keeps,
}
use flash_store.Engine.Compacting.{numbered, apply_compacted, compact_loop}
use flash_store.Engine.Flush.{IsValid, log_and_apply_max}
use flash_store.Error.{ok}
use flash_store.External.{Buf, Crc32, Bincode}
use flash_store.Manifest.{FileMetaData, VersionEdit}
use flash_store.Manifest.Levels.{files_at}
use flash_store.Memtable
use flash_store.Tables.{Tables}
use flash_store.Types.{Key, Entry}
use flash_store.Manifest.Versions.{HasNumber}
use flash_store.Wal.Record.{WalRecord}
use flash_store.Engine.Layers.{held}
use flash_store.Engine.Layers.Gathered.{all_entries}
use flash_store.Engine.Layers.Newest.{IsHeld}
use flash_store.Engine.Layers.Step.{outputs, task_files}
use flash_store.Engine.Layers.Passes.{
  Layered, OutputFits, task_output, runs, pass-Layered, file-Below, found-or_else, get-newest,
}

module _ {Table : Type 0} ⦃tables : Tables Table⦄ ⦃buf : Buf⦄ ⦃crc : Crc32⦄
    ⦃wal_codec : Bincode WalRecord⦄ ⦃edit_codec : Bincode VersionEdit⦄ where
  -- A pass succeeds on a well-formed state with its layers in order.
  pub pass-keeps :
      (c : Compactor) (s : Engine Table) (task : CompactionTask)
      → IsValid s
      → Layered s
      → pick_compaction c s.version_set.levels ≡ some task
      → c.max_levels ≡ s.version_set.max_levels
      → OutputFits Table (outputs c task (all_entries s.files (task_files task)))
      → HasNumber s.version_set
      → (run_compaction c task s.files s.version_set.next_file_number ≡ ok (task_output c s task))
        × IsValid (apply_compacted s (task_output c s task))
        × Layered (apply_compacted s (task_output c s task))
        × ((apply_compacted s (task_output c s task)).version_set.max_levels
            ≡ s.version_set.max_levels)
        × ((k : Key) (e : Entry)
            → IsHeld
                (held (apply_compacted s (task_output c s task)).files)
                k
                (apply_compacted s (task_output c s task)).version_set.levels
                e
            → IsHeld (held s.files) k s.version_set.levels e)
        × ((k : Key) → get (apply_compacted s (task_output c s task)) k ≡ get s k)
  unfolding apply_compacted
  pass-keeps c s task v l picked high fit room =
      let r = task_output c s task in
      let t = apply_compacted s r in
      let high' : c.max_levels ≡ length s.version_set.levels = high ∙ sym v.versions.count in
      let below = λ (j : ℕ) (g : FileMetaData) (i : In g (files_at j s.version_set.levels)).
        file-Below s.version_set.next_file_number s.version_set.levels j g v.versions.numbers i in
      let (new, old, same) = pass-Layered c s task l below picked high' fit in
      let run = runs c s task l below picked high' in
      (
        run,
        apply_compacted-IsValid s r room
            (run_compaction-NumbersFit c task s.files s.version_set.next_file_number r room run) v,
        new,
        log_and_apply_max (numbered s.version_set r.table) r.edit
            ∙ (numbered-keeps s.version_set r.table).2,
        old,
        λ k.
            get-newest t k new v.none_frozen
            ∙ found-or_else (Memtable.get s.memtable k) _ _ (same k)
            ∙ sym (get-newest s k l v.none_frozen),
      )

  loop-done :
      (passes : ℕ) (c : Compactor) (s : Engine Table)
      → pick_compaction c s.version_set.levels ≡ none
      → compact_loop (suc passes) c s ≡ ok s
  unfolding compact_loop
  loop-done passes c s idle = ground arith

  loop-step :
      (passes : ℕ) (c : Compactor) (s : Engine Table) (task : CompactionTask) (r : Compacted Table)
      → pick_compaction c s.version_set.levels ≡ some task
      → run_compaction c task s.files s.version_set.next_file_number ≡ ok r
      → compact_loop (suc passes) c s ≡ compact_loop passes c (apply_compacted s r)
  unfolding compact_loop
  loop-step passes c s task r picked run = ground arith

  -- A condition on each of the passes.
  abbrev pub PassesHave :
      (Engine Table → CompactionTask → Type 0) → ℕ → Compactor → Engine Table → Type 0
  PassesHave Cond zero c s = Unit
  PassesHave Cond (suc passes) c s =
      IfSome
        (λ task. Cond s task × PassesHave Cond passes c (apply_compacted s (task_output c s task)))
        (pick_compaction c s.version_set.levels)

  -- What each pass keeps, all of them keep.
  pub compact_loop-passes :
      (Cond : Engine Table → CompactionTask → Type 0) (P : Engine Table → Type 0) (c : Compactor)
      → ((s : Engine Table) (task : CompactionTask)
          → P s
          → pick_compaction c s.version_set.levels ≡ some task
          → Cond s task
          → (run_compaction c task s.files s.version_set.next_file_number
              ≡ ok (task_output c s task))
            × P (apply_compacted s (task_output c s task))
            × ((k : Key) → get (apply_compacted s (task_output c s task)) k ≡ get s k))
      → (passes : ℕ) (s : Engine Table) → P s
      → PassesHave Cond passes c s
      → (t : Engine Table) × ((compact_loop passes c s ≡ ok t)
          × (P t × ((k : Key) → get t k ≡ get s k)))
  unfolding compact_loop
  compact_loop-passes Cond P c pass zero s p fit = (s, (refl, (p, λ k. refl)))
  compact_loop-passes Cond P c pass (suc passes) s p fit =
      elim (Option-cases (pick_compaction c s.version_set.levels)) [
        | inl idle ↦ (s, (loop-done passes c s idle, (p, λ k. refl)))
        | inr (task, picked) ↦
            let (fits, later) = rw picked at fit in
            let (run, new, same) = pass s task p picked fits in
            let (t, (rest, (last, same'))) =
              compact_loop-passes Cond P c pass passes (apply_compacted s (task_output c s task))
                new later in
            (t, (loop-step passes c s task _ picked run ∙ rest, (last, λ k. same' k ∙ same k)))
      ]

  abbrev pub compactor_of : Engine Table → Compactor
  compactor_of s = Compaction.new s.options.max_levels s.options.base_level_size_bytes
