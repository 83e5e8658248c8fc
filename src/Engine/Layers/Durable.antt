-- ===== src/Engine/Layers/Durable.antt =====
-- `compact` of src/engine.rs on a state that its directory describes.
use flash_store.Prelude.{◌≡◌, refl, sym, ◌∙◌, some, arith}
use flash_store.Compaction.{Compactor, CompactionTask, pick_compaction, run_compaction}
use flash_store.Error.{ok}
use flash_store.External.{Buf, Crc32, Bincode}
use flash_store.Manifest.{VersionEdit}
use flash_store.Manifest.Log
use flash_store.Manifest.Versions.{HasNumber}
use flash_store.Tables.{Tables}
use flash_store.Types.{Key}
use flash_store.Wal.Record.{WalRecord}
use flash_store.Engine.{Engine, get}
use flash_store.Engine.Compacted.{
  apply_compacted-Persisted, run_compaction-last, run_compaction-NumbersFit,
}
use flash_store.Engine.Compacting.{apply_compacted, compact}
use flash_store.Engine.Flush.{IsValid}
use flash_store.Engine.Durable.{Persisted, described}
use flash_store.Engine.Layers.Gathered.{all_entries}
use flash_store.Engine.Layers.Loop.{PassesHave, compactor_of, compact_loop-passes, pass-keeps}
use flash_store.Engine.Layers.Passes.{OutputFits, task_output}
use flash_store.Engine.Layers.Recorded.{
  Recorded, recorded_last-edits, recorded_last-log_edit, log_and_apply_grows,
}
use flash_store.Engine.Layers.Step.{outputs, task_files}
use flash_store.Engine.Layers.Steps.{InOrder}

module _ {Table : Type 0} ⦃tables : Tables Table⦄ ⦃buf : Buf⦄ ⦃crc : Crc32⦄
    ⦃wal_codec : Bincode WalRecord⦄ ⦃edit_codec : Bincode VersionEdit⦄ where
  -- The output of a pass fits a table, there is a file number for it, and its edit is below 4 GiB.
  abbrev pub PassFits : Compactor → Engine Table → CompactionTask → Type 0
  PassFits c s task =
      OutputFits Table (outputs c task (all_entries s.files (task_files task)))
      × HasNumber s.version_set
      × Log.Fits (task_output c s task).edit

  abbrev pub CompactFits : Engine Table → Type 0
  CompactFits s = PassesHave (PassFits (compactor_of s)) 100 (compactor_of s) s

  abbrev Sound : Compactor → Engine Table → Type 0
  Sound c s = IsValid s × Persisted s × InOrder s × (c.max_levels ≡ s.version_set.max_levels)

  pass-Sound :
      (c : Compactor) (s : Engine Table) (task : CompactionTask)
      → Sound c s
      → pick_compaction c s.version_set.levels ≡ some task
      → PassFits c s task
      → (run_compaction c task s.files s.version_set.next_file_number ≡ ok (task_output c s task))
        × Sound c (apply_compacted s (task_output c s task))
        × ((k : Key) → get (apply_compacted s (task_output c s task)) k ≡ get s k)
  unfolding apply_compacted
  pass-Sound c s task (v, p, o, high) picked (fits, room, small) =
      let r = task_output c s task in
      let t = apply_compacted s r in
      let (run, v', l', max, old, same) = pass-keeps c s task v o.layered picked high fits room in
      let unset = run_compaction-last c task s.files s.version_set.next_file_number r run in
      let numbers =
        run_compaction-NumbersFit c task s.files s.version_set.next_file_number r room run in
      let now = recorded_last-log_edit s t p.edits r.edit p.manifest small refl refl in
      let before = recorded_last-edits s p.edits p.manifest in
      let grows = log_and_apply_grows (described s p.edits) r.edit in
      let recorded : Recorded t =
        λ k e h. omega (arith, o.recorded k e (old k e h), before, now, grows) in
      (
        run,
        (
          v',
          apply_compacted-Persisted s r small numbers unset p,
          record { layered = l'; recorded = recorded },
          high ∙ sym max,
        ),
        same,
      )

  -- From a well-formed state that its directory describes, with its tables in order: `compact`
  -- succeeds and changes the answer of no read, if the tables and edits that it writes fit their
  -- formats, and each pass has a file number left below 2^64 - 1. The new state is again
  -- well-formed, described by its directory and in order.
  pub compact-durable :
      (s : Engine Table)
      → IsValid s
      → Persisted s
      → InOrder s
      → CompactFits s
      → (t : Engine Table) × ((compact s ≡ ok t)
          × (((k : Key) → get t k ≡ get s k) × IsValid t × Persisted t × InOrder t))
  unfolding compact
  compact-durable s v p o fit =
      let c = compactor_of s in
      let (t, (run, ((v', p', o', _), same))) =
        compact_loop-passes (PassFits c) (Sound c) c (pass-Sound c) 100 s
          (v, p, o, sym p.manifest.max_levels) fit in
      (t, (run, (same, v', p', o')))
