-- ===== src/Engine/Layers/Step.antt =====
-- What `run_compaction` writes for a task, in terms of the layers.
use flash_store.Prelude.{
  ℕ, suc, ◌-◌, ◌≤◌, ◌≡◌, ap, sym, ◌∙◌, subst, List, [], ◌++◌, Option, none, some, In, inl, inr,
  arith, ◌⊎◌, true, Bool, length, leb, Option-cases,
}
use flash_store.BTreeMap.{values, get}
use flash_store.Compaction.{
  Compactor, CompactionTask, pick_compaction, final_entries, merge_entries, gather,
}
use flash_store.Compaction.Merge.{IsNewest, merge_entries-IsNewest}
use flash_store.Compaction.Output.{merge-SortedKeyed, final-find, final-IsSorted, purge}
use flash_store.Compaction.Picked.{pick_compaction-Within}
use flash_store.Engine.Entries.{values-IsSorted}
use flash_store.Error.{ok}
use flash_store.Manifest.{FileMetaData, Levels}
use flash_store.Manifest.Levels.{files_at}
use flash_store.Manifest.Members.{files_at-In}
use flash_store.Sstable.Block.Search.{IsSorted, find}
use flash_store.Tables.{Tables}
use flash_store.Types.{Key, Entry, is_tombstone}
use flash_store.Engine.Layers.{IsLayered, held, Stored}
use flash_store.Engine.Layers.Gathered.{all_entries, gather-ok, gathered_newest, gathered_none}
use flash_store.Engine.Layers.Pass.{Source}
use flash_store.Engine.Layers.Task.{Gone, Gone-In, In-Gone, task-Stored}

-- The entries that a compaction writes.
abbrev pub outputs : Compactor → CompactionTask → List Entry → List Entry
outputs c task es =
    final_entries (leb (c.max_levels - 1) task.target_level) (values (merge_entries [] es))

pub outputs-IsSorted :
    (c : Compactor) (task : CompactionTask) (es : List Entry) → IsSorted (outputs c task es)
outputs-IsSorted c task es =
    let m = merge_entries [] es in
    let sk = merge-SortedKeyed [] es (tt, tt) in
    final-IsSorted (leb (c.max_levels - 1) task.target_level) (values m)
      (values-IsSorted m sk.1 sk.0)

abbrev pub task_files : CompactionTask → List FileMetaData
task_files task = task.input_files ++ task.target_input_files

-- What a purge leaves, and why it leaves nothing.
purge-some : (b : Bool) (o : Option Entry) (x : Entry) → purge b o ≡ some x → o ≡ some x
purge-some b none x h = absurd cc
purge-some b (some e) x h = ground arith

purge-cases :
    (b : Bool) (x : Entry)
    → (purge b (some x) ≡ some x) ⊎ ((b ≡ true) × (is_tombstone x.value_type ≡ true))
purge-cases b x = ground arith

module _ (Table : Type 0) ⦃tables : Tables Table⦄ (files : ℕ → Option Table) (ls : Levels)
    (c : Compactor) (task : CompactionTask) (layered : IsLayered (held files) ls)
    (stored : (j : ℕ) (g : FileMetaData) → In g (files_at j ls) → Stored files g)
    (picked : pick_compaction c ls ≡ some task) (high : c.max_levels ≡ length ls) where
  pub gathered : gather files (task_files task) ≡ ok (all_entries files (task_files task))
  gathered =
      gather-ok files (task_files task)
        (task-Stored Table files files ls ls c task layered stored picked (omega arith))

  found :
      (k : Key)
      → find k (outputs c task (all_entries files (task_files task)))
        ≡ purge
            (leb (c.max_levels - 1) task.target_level)
            (get (merge_entries [] (all_entries files (task_files task))) k)
  found k =
      let m = merge_entries [] (all_entries files (task_files task)) in
      final-find (leb (c.max_levels - 1) task.target_level) m k
        (merge-SortedKeyed [] (all_entries files (task_files task)) (tt, tt))

  merged-Source :
      (k : Key) (x : Entry)
      → get (merge_entries [] (all_entries files (task_files task))) k ≡ some x
      → Source (held files) (Gone ls task) k x
  merged-Source k x h =
      let stored_task =
        task-Stored Table files files ls ls c task layered stored picked (omega arith) in
      let ((p, (i, q)), most) = gathered_newest files (task_files task) k x stored_task (
        subst (IsNewest k (all_entries files (task_files task))) h
          (merge_entries-IsNewest (all_entries files (task_files task)) k)) in
      let (j, gone) =
        In-Gone Table files files ls ls c task layered stored picked (omega arith) p i in
      (
        (j, (p, (gone, q))),
        λ j q b gone.
            most q b
              (Gone-In Table files files ls ls c task layered stored picked (omega arith) j q gone),
      )

  -- An entry that is written is the newest of its key in the files of the task.
  pub output-Source :
      (k : Key) (x : Entry)
      → find k (outputs c task (all_entries files (task_files task))) ≡ some x
      → Source (held files) (Gone ls task) k x
  output-Source k x h = merged-Source k x (purge-some _ _ x (sym (found k) ∙ h))

  -- Of a key an entry is written, or no file of the task holds one, or it is a tombstone at the
  -- last level.
  pub output_cases :
      (k : Key)
      → ((x : Entry) × ((find k (outputs c task (all_entries files (task_files task))) ≡ some x)
            × Source (held files) (Gone ls task) k x))
        ⊎ (((j : ℕ) (q : FileMetaData) → Gone ls task j q → held files k q ≡ none)
            ⊎ ((x : Entry) × (Source (held files) (Gone ls task) k x
                  × (is_tombstone x.value_type ≡ true)
                  × ((j : ℕ) (g : FileMetaData) → In g (files_at j ls) → j ≤ suc task.level))))
  output_cases k =
      elim (Option-cases (get (merge_entries [] (all_entries files (task_files task))) k)) [
        | inl absent ↦ inr (
            inl (λ j q gone.
              gathered_none files (task_files task) k
                (subst (IsNewest k (all_entries files (task_files task))) absent
                  (merge_entries-IsNewest (all_entries files (task_files task)) k))
                q
                (Gone-In Table files files ls ls c task layered stored picked (omega arith) j q
                  gone)))
        | inr (x, h) ↦ elim (purge-cases (leb (c.max_levels - 1) task.target_level) x) [
          | inl kept ↦ inl (
            x,
            (
              found k ∙ ap (purge (leb (c.max_levels - 1) task.target_level)) h ∙ kept,
              merged-Source k x h,
            ),
          )
          | inr (bottom, dead) ↦ inr (
              inr (
                x,
                (
                  merged-Source k x h,
                  dead,
                  λ j g m.
                      let lt = files_at-In j ls g m in
                      let step = (pick_compaction-Within c ls task picked).0 in ground arith,
                ),
              ))
        ]
      ]
