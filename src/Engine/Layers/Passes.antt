-- ===== src/Engine/Layers/Passes.antt =====
-- `compact` of src/engine.rs succeeds, changes no read, and keeps the layers in order.
use flash_store.Prelude.{
  ℕ, zero, suc, ◌<◌, ◌≤◌, ◌≡◌, refl, ap, ◌∙◌, List, [], ◌∷◌, ◌++◌, Option, none, some, In, inl, inr,
  arith, true, length, All,
}
use flash_store.BTreeMap
use flash_store.Compaction.{
  Compactor, CompactionTask, Compacted, pick_compaction, run_compaction, write_entries,
}
use flash_store.Compaction.Picked.{pick_compaction-Within}
use flash_store.Engine.{Engine, get}
use flash_store.Engine.Compacted.{
  numbered-keeps, delete_all-new, log_and_apply-last, run_compaction-last,
}
use flash_store.Engine.Compacting.{numbered, apply_compacted}
use flash_store.Engine.Flush.{get-parts, found}
use flash_store.Engine.Flushing.{last_key}
use flash_store.Engine.Search.{or_else, flat}
use flash_store.Error.{ok}
use flash_store.External.{Bincode}
use flash_store.Manifest.{
  FileMetaData, VersionEdit, Levels, at_level, push_file, add_files, delete_files, log_and_apply,
}
use flash_store.Manifest.Levels.{files_at}
use flash_store.Manifest.Versions.{Below}
use flash_store.Memtable
use flash_store.Tables.{Tables, answer_of}
use flash_store.Types.{Key, Value, Entry}
use flash_store.Engine.Layers.{IsLayered, held, Stored}
use flash_store.Engine.Layers.Answers.{pass_answer, IsHeld-before}
use flash_store.Engine.Layers.Compacted.{empty_pass, output_pass}
use flash_store.Engine.Layers.Gathered.{all_entries}
use flash_store.Engine.Layers.Kept.{pass-IsLayered}
use flash_store.Engine.Layers.Newest.{first_of-Newest, IsHeld}
use flash_store.Engine.Layers.Reads.{search_version-held, first_of, All-In}
use flash_store.Engine.Layers.Removed.{task_edit, removals}
use flash_store.Engine.Layers.Step.{outputs, task_files, gathered}
use flash_store.Engine.Layers.Task.{Gone, IsPassed}

All-files :
    (P : FileMetaData → Type 0) (ls : Levels)
    → ((j : ℕ) (g : FileMetaData) → In g (files_at j ls) → P g)
    → All (All P) ls
All-files P [] h = tt
All-files P (l ∷ ls) h = (all_in l (h 0), All-files P ls (λ j. h (suc j)))
  where
    all_in : (l : List FileMetaData) → ((g : FileMetaData) → In g l → P g) → All P l
    all_in [] h = tt
    all_in (f ∷ l) h = (h f (inl refl), all_in l (λ g i. h g (inr i)))

pub file-Below :
    (n : ℕ) (ls : Levels) (j : ℕ) (g : FileMetaData)
    → All (Below n) ls
    → In g (files_at j ls)
    → g.file_number < n
file-Below n [] j g b i = absurd (elim i [ ])
file-Below n (l ∷ ls) zero g b i = All-In (λ f. f.file_number < n) l g b.0 i
file-Below n (l ∷ ls) (suc j) g b i = file-Below n ls j g b.1 i

pub found-or_else :
    (a : Option (Option Value)) (o o' : Option Entry)
    → flat (answer_of o') ≡ flat (answer_of o)
    → found (or_else (ok a) (ok (answer_of o'))) ≡ found (or_else (ok a) (ok (answer_of o)))
unfolding or_else
found-or_else none o o' h = ap ok h
found-or_else (some v) o o' h = refl

-- The entries, if there are any, fit a table.
abbrev pub OutputFits : (Table : Type 0) ⦃tables : Tables Table⦄ → List Entry → Type 0
OutputFits Table [] = Unit
OutputFits Table ⦃tables = tables⦄ (e ∷ es) = tables.fits (e ∷ es) ≡ true

task_edit-new : (task : CompactionTask) → (task_edit task).new_files ≡ []
task_edit-new task =
    delete_all-new task.target_level task.target_input_files _
    ∙ delete_all-new task.level task.input_files _

module _ {Table : Type 0} ⦃tables : Tables Table⦄ where
  -- The tables of the state are sound and in the order in which they hide each other, their
  -- sequence numbers have been handed out, and the memtable is newer.
  pub record Layered (s : Engine Table) : Type 0 where
    pub order : IsLayered (held s.files) s.version_set.levels
    pub stored :
        (j : ℕ) (g : FileMetaData) → In g (files_at j s.version_set.levels) → Stored s.files g
    pub handed_out :
        (k : Key) (e : Entry)
        → IsHeld (held s.files) k s.version_set.levels e
        → e.seq_no ≤ s.version_set.last_sequence
    pub memtable_newer :
        (k : Key) (a e : Entry)
        → BTreeMap.get s.memtable.table.map k ≡ some a
        → IsHeld (held s.files) k s.version_set.levels e
        → e.seq_no < a.seq_no

  -- What `run_compaction` makes of a task.
  abbrev pub task_output : Compactor → Engine Table → CompactionTask → Compacted Table
  task_output c s task =
      write_entries task s.version_set.next_file_number (task_edit task)
        (outputs c task (all_entries s.files (task_files task)))

  -- A read by the newest entry of the key in the tables.
  pub get-newest :
      (s : Engine Table) (k : Key)
      → Layered s
      → s.imm_memtables ≡ []
      → get s k
        ≡ found (
            or_else
              (ok (Memtable.get s.memtable k))
              (ok (answer_of (first_of (held s.files) k s.version_set.levels))))
  get-newest s k l h =
      get-parts s k h
      ∙ ap (λ r. found (or_else (ok (Memtable.get s.memtable k)) r))
          (search_version-held s.files k s.version_set.levels
            (All-files (Stored s.files) s.version_set.levels l.stored))

module _ {Table : Type 0} ⦃tables : Tables Table⦄ ⦃edit_codec : Bincode VersionEdit⦄ where
  module _ (c : Compactor) (s : Engine Table) (task : CompactionTask) (l : Layered s)
      (below : (j : ℕ) (g : FileMetaData)
        → In g (files_at j s.version_set.levels)
        → g.file_number < s.version_set.next_file_number)
      (picked : pick_compaction c s.version_set.levels ≡ some task)
      (high : c.max_levels ≡ length s.version_set.levels) where
    written_pass :
        (final : List Entry)
        → outputs c task (all_entries s.files (task_files task)) ≡ final
        → OutputFits Table final
        → let t =
            apply_compacted s
              (write_entries task s.version_set.next_file_number (task_edit task) final) in
          IsPassed Table s.files t.files s.version_set.levels t.version_set.levels task
    unfolding apply_compacted write_entries log_and_apply add_files
    written_pass [] h fit =
        empty_pass Table s.files s.version_set.levels c task s.version_set.next_file_number l.order
          l.stored picked high below _ h
          (ap (λ ms. add_files ms (delete_files (removals task) s.version_set.levels))
            (task_edit-new task))
    written_pass (e ∷ es) h fit =
        let (t, size) = tables.build (e ∷ es) in
        let out : FileMetaData = record {
          file_number = s.version_set.next_file_number;
          file_size = size;
          smallest_key = e.key;
          largest_key = last_key e.key es;
        } in
        let ds = delete_files (removals task) s.version_set.levels in
        output_pass Table s.files s.version_set.levels c task s.version_set.next_file_number l.order
          l.stored picked high below _ e es size h fit out refl
          (ap (λ ms. add_files (ms ++ (task.target_level, out) ∷ []) ds) (task_edit-new task)
            ∙ ap (λ t. at_level t (push_file t out) ds)
                (pick_compaction-Within c s.version_set.levels task picked).0)

    pub runs :
        run_compaction c task s.files s.version_set.next_file_number ≡ ok (task_output c s task)
    unfolding run_compaction
    runs = rw (gathered Table s.files s.version_set.levels c task l.order l.stored picked high) refl

    pub last_sequence-same :
        (apply_compacted s (task_output c s task)).version_set.last_sequence
        ≡ s.version_set.last_sequence
    unfolding apply_compacted
    last_sequence-same =
        let r = task_output c s task in
        log_and_apply-last (numbered s.version_set r.table) r.edit
          (run_compaction-last c task s.files s.version_set.next_file_number r runs)
        ∙ (numbered-keeps s.version_set r.table).3

    -- A pass keeps the layers in order, invents no entry, and changes no answer of the tables.
    pub pass-Layered :
        OutputFits Table (outputs c task (all_entries s.files (task_files task)))
        → Layered (apply_compacted s (task_output c s task))
          × ((k : Key) (e : Entry)
              → let t = apply_compacted s (task_output c s task) in
                IsHeld (held t.files) k t.version_set.levels e
                → IsHeld (held s.files) k s.version_set.levels e)
          × ((k : Key)
              → let t = apply_compacted s (task_output c s task) in
                flat (answer_of (first_of (held t.files) k t.version_set.levels))
                ≡ flat (answer_of (first_of (held s.files) k s.version_set.levels)))
    unfolding apply_compacted
    pass-Layered fit =
        let t = apply_compacted s (task_output c s task) in
        let gone = Gone s.version_set.levels task in
        let ((out, p), stored) =
          written_pass (outputs c task (all_entries s.files (task_files task))) refl fit in
        let order =
          pass-IsLayered (held s.files) (held t.files) s.version_set.levels t.version_set.levels
            task.level gone out p l.order in
        let old =
          IsHeld-before (held s.files) (held t.files) s.version_set.levels t.version_set.levels
            task.level gone out p l.order in
        (
          record {
            order = order;
            stored = stored;
            handed_out = λ k e h. omega (arith, l.handed_out k e (old k e h), last_sequence-same);
            memtable_newer = λ k a e m h. l.memtable_newer k a e m (old k e h);
          },
          old,
          λ k.
              pass_answer (held s.files) (held t.files) s.version_set.levels t.version_set.levels
                task.level gone out p l.order k _ _
                (first_of-Newest (held s.files) k s.version_set.levels l.order)
                (first_of-Newest (held t.files) k t.version_set.levels order),
        )
