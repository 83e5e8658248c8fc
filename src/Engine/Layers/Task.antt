-- ===== src/Engine/Layers/Task.antt =====
-- A task that `pick_compaction` gives is a pass over the layers.
use flash_store.Prelude.{
  ℕ, zero, suc, ◌<◌, ◌≤◌, ◌≡◌, refl, ap, sym, ◌∙◌, subst, List, [], ◌∷◌, ◌++◌, Option, none, some,
  In, inl, inr, arith, ◌⊎◌, true, length, get_elem?,
}
use flash_store.Bytes.{eq_of_cmp}
use flash_store.Compaction.{Compactor, CompactionTask, pick_compaction}
use flash_store.Compaction.Merge.{In-append}
use flash_store.Compaction.Picked.{pick_compaction-Within}
use flash_store.Compaction.Picking.{pick_compaction_complete}
use flash_store.Compaction.Ranges.{Between}
use flash_store.Manifest.{FileMetaData, Levels, delete_files}
use flash_store.Manifest.Levels.{files_at, files_at-delete_files, length-delete_files}
use flash_store.Manifest.Members.{
  IsDeleted, files_at-In, IsDeleted-or_not, deleted_at-In, deleted_at-keeps, deleted_at-other,
}
use flash_store.Sstable.Block.Search.{find}
use flash_store.Tables.{Tables}
use flash_store.Types.{Key, Entry, is_tombstone}
use flash_store.Engine.Layers.{IsLayered, held, Stored, table_entries}
use flash_store.Engine.Layers.Gathered.{find-In, All-In-entry, append-In}
use flash_store.Engine.Layers.Pass.{Pass, Source, zero_or_above}
use flash_store.Engine.Layers.Reads.{Stored-held}
use flash_store.Engine.Layers.Removed.{removals, removals-names, removes_input, removes_target}

-- A file of the levels that the task removes.
abbrev pub Gone : Levels → CompactionTask → ℕ → FileMetaData → Type 0
Gone ls task j g = In g (files_at j ls) × IsDeleted j g.file_number (removals task)

get_elem?-files_at : (j : ℕ) (ls : Levels) → j < length ls → get_elem? ls j ≡ some (files_at j ls)
get_elem?-files_at j [] h = absurd (omega arith)
get_elem?-files_at zero (l ∷ ls) h = refl
get_elem?-files_at (suc j) (l ∷ ls) h = get_elem?-files_at j ls (omega arith)

no_members : (l : List FileMetaData) → ((g : FileMetaData) → In g l → ⊥) → l ≡ []
no_members [] h = refl
no_members (f ∷ l) h = absurd (h f (inl refl))

-- An entry that a sound file holds has its key in the range of the file.
held-Between :
    (Table : Type 0) ⦃tables : Tables Table⦄ (files : ℕ → Option Table) (f : FileMetaData) (k : Key)
    (a : Entry)
    → Stored files f
    → held files k f ≡ some a
    → Between f.smallest_key f.largest_key k
held-Between Table files f k a s h =
    let (i, same) = find-In k (table_entries (files f.file_number)) a h in
    let inside =
      All-In-entry (λ e. Between f.smallest_key f.largest_key e.key) s.1.1.entries a s.1.1.ranged
        (subst (In a) (Stored-held Table files f s) i) in
    let one : k ≡ a.key = eq_of_cmp k a.key (ground arith) in
    subst (Between f.smallest_key f.largest_key) (sym one) inside

-- The task is a pass, after which the files are sound.
abbrev pub IsPassed :
    (Table : Type 0) ⦃tables : Tables Table⦄
    → (ℕ → Option Table)
    → (ℕ → Option Table)
    → Levels
    → Levels
    → CompactionTask
    → Type 0
IsPassed Table files files' ls ls' task =
    ((out : FileMetaData) × Pass (held files) (held files') ls ls' task.level (Gone ls task) out)
    × ((j : ℕ) (g : FileMetaData) → In g (files_at j ls') → Stored files' g)

module _ (Table : Type 0) ⦃tables : Tables Table⦄ (files files' : ℕ → Option Table)
    (ls ls' : Levels) (c : Compactor) (task : CompactionTask) (layered : IsLayered (held files) ls)
    (stored : (j : ℕ) (g : FileMetaData) → In g (files_at j ls) → Stored files g)
    (picked : pick_compaction c ls ≡ some task) (high : c.max_levels ≤ length ls) where
  target_next : task.target_level ≡ suc task.level
  target_next = (pick_compaction-Within c ls task picked).0

  enough : suc task.level < length ls
  enough = omega (arith, target_next, (pick_compaction-Within c ls task picked).1)

  -- A removed file is one of the task.
  pub Gone-task :
      (j : ℕ) (g : FileMetaData)
      → Gone ls task j g
      → ((j ≡ task.level) × In g task.input_files)
        ⊎ ((j ≡ suc task.level) × In g task.target_input_files)
  Gone-task j g (i, d) =
      let (_, _, inputs, targets, _) = pick_compaction-Within c ls task picked in
      let (f, which, same) = removals-names task target_next j g.file_number d in
      elim which [
        | inl (at, m) ↦
            let one = layered.numbered task.level j f g (inputs f m) i same in
            inl (at, subst (λ f. In f task.input_files) one.1 m)
        | inr (at, m) ↦
            let one = layered.numbered (suc task.level) j f g (targets f m) i same in
            inr (at, subst (λ f. In f task.target_input_files) one.1 m)
      ]

  pub Gone-In :
      (j : ℕ) (g : FileMetaData)
      → Gone ls task j g
      → In g (task.input_files ++ task.target_input_files)
  Gone-In j g gone = elim (Gone-task j g gone) [
    | inl (_, m) ↦ In-append g task.input_files task.target_input_files (inl m)
    | inr (_, m) ↦ In-append g task.input_files task.target_input_files (inr m)
  ]

  -- The files of the task are removed.
  pub In-Gone :
      (g : FileMetaData)
      → In g (task.input_files ++ task.target_input_files)
      → (j : ℕ) × Gone ls task j g
  In-Gone g i =
      let (_, _, inputs, targets, _) = pick_compaction-Within c ls task picked in
      elim (append-In g task.input_files task.target_input_files i) [
        | inl m ↦ (task.level, (inputs g m, removes_input task target_next g m))
        | inr m ↦ (suc task.level, (targets g m, removes_target task target_next g m))
      ]

  pub task-Stored :
      (g : FileMetaData) → In g (task.input_files ++ task.target_input_files) → Stored files g
  task-Stored g i = let (j, gone) = In-Gone g i in stored j g gone.0

  task_complete :
      (f g : FileMetaData) (k : Key) (a b : Entry)
      → Gone ls task task.level f
      → held files k f ≡ some a
      → In g (files_at (suc task.level) ls)
      → held files k g ≡ some b
      → Gone ls task (suc task.level) g
  task_complete f g k a b gone ha m hb = elim (Gone-task task.level f gone) [
    | inr (at, _) ↦ absurd (omega arith)
    | inl (_, input) ↦
        let there =
          subst (λ j. get_elem? ls j ≡ some (files_at (suc task.level) ls)) (sym target_next)
            (get_elem?-files_at (suc task.level) ls enough) in
        let target =
          pick_compaction_complete c ls task (files_at (suc task.level) ls) f g k picked there input
            m (held-Between Table files f k a (stored task.level f gone.0) ha)
            (held-Between Table files g k b (stored (suc task.level) g m) hb) in
        (m, removes_target task target_next g target)
  ]

  -- A file that stays is read as before.
  stays_same :
      (out : FileMetaData)
      → ((j : ℕ) (g : FileMetaData) → In g (files_at j ls) → g.file_number < out.file_number)
      → ((m : ℕ)
          → m < out.file_number
          → ((j : ℕ) → IsDeleted j m (removals task) → ⊥)
          → files' m ≡ files m)
      → (j : ℕ) (g : FileMetaData) → In g (files_at j ls)
      → (Gone ls task j g → ⊥)
      → files' g.file_number ≡ files g.file_number
  stays_same out below same j g m stays = same g.file_number (below j g m) (λ i d.
      let (_, _, inputs, targets, _) = pick_compaction-Within c ls task picked in
      let (f, which, e) = removals-names task target_next i g.file_number d in
      let at : In f (files_at i ls) = elim which [
        | inl (at, k) ↦ subst (λ i. In f (files_at i ls)) (sym at) (inputs f k)
        | inr (at, k) ↦ subst (λ i. In f (files_at i ls)) (sym at) (targets f k)
      ] in
      let one = layered.numbered i j f g at m e in
      stays (m, subst (λ j. IsDeleted j g.file_number (removals task)) one.0 d))

  module _ (out : FileMetaData)
      (below : (j : ℕ) (g : FileMetaData) → In g (files_at j ls) → g.file_number < out.file_number)
      (same : (m : ℕ)
        → m < out.file_number
        → ((j : ℕ) → IsDeleted j m (removals task) → ⊥)
        → files' m ≡ files m)
      (added : (j : ℕ) (g : FileMetaData)
        → In g (files_at j ls')
        → In g (files_at j (delete_files (removals task) ls))
          ⊎ ((j ≡ suc task.level)
              × (g ≡ out)
              × ((k : Key) (x : Entry)
                  → held files' k out ≡ some x
                  → Source (held files) (Gone ls task) k x)
              × Stored files' out))
      (keeps : (j : ℕ) (g : FileMetaData)
        → In g (files_at j (delete_files (removals task) ls))
        → In g (files_at j ls'))
      (top : files_at 0 ls' ≡ files_at 0 (delete_files (removals task) ls)) where
    task_before :
        (j : ℕ) (g : FileMetaData)
        → In g (files_at j ls')
        → (In g (files_at j ls)
            × (Gone ls task j g → ⊥)
            × ((k : Key) → held files' k g ≡ held files k g))
          ⊎ ((j ≡ suc task.level)
              × (g ≡ out)
              × ((k : Key) (x : Entry)
                  → held files' k out ≡ some x
                  → Source (held files) (Gone ls task) k x))
    task_before j g i = elim (added j g i) [
      | inr (at, is_out, source, _) ↦ inr (at, is_out, source)
      | inl old ↦
          let lt : j < length ls =
            omega (arith, files_at-In j _ g old, length-delete_files (removals task) ls) in
          let (m, other) =
            deleted_at-In j (removals task) (files_at j ls) g
              (subst (In g) (files_at-delete_files j (removals task) ls lt) old) in
          inl (
            m,
            λ gone. other gone.1,
            λ k.
                ap (λ t. find k (table_entries t))
                  (stays_same out below same j g m (λ gone. other gone.1)),
          )
    ]

    task_kept :
        (j : ℕ) (g : FileMetaData)
        → In g (files_at j ls)
        → (Gone ls task j g → ⊥)
        → In g (files_at j ls') × ((k : Key) → held files' k g ≡ held files k g)
    task_kept j g m stays = (
      keeps j g (
          subst (In g) (sym (files_at-delete_files j (removals task) ls (files_at-In j ls g m)))
            (deleted_at-keeps j (removals task) (files_at j ls) g m (λ d. stays (m, d)))),
      λ k. ap (λ t. find k (table_entries t)) (stays_same out below same j g m stays),
    )

    -- The files after the pass are sound.
    new-Stored : (j : ℕ) (g : FileMetaData) → In g (files_at j ls') → Stored files' g
    new-Stored j g i = elim (added j g i) [
      | inr (at, is_out, _, sound) ↦ subst (Stored files') (sym is_out) sound
      | inl old ↦
          let lt : j < length ls =
            omega (arith, files_at-In j _ g old, length-delete_files (removals task) ls) in
          let (m, other) =
            deleted_at-In j (removals task) (files_at j ls) g
              (subst (In g) (files_at-delete_files j (removals task) ls lt) old) in
          let (t, (there, sound)) = stored j g m in
          (t, (stays_same out below same j g m (λ gone. other gone.1) ∙ there, sound))
    ]

    task_top :
        (files_at 0 ls' ≡ [])
        ⊎ ((files_at 0 ls' ≡ files_at 0 ls)
            × ((g : FileMetaData)
                → In g (files_at 0 ls)
                → (k : Key) → held files' k g ≡ held files k g))
    task_top =
        let lt : 0 < length ls = omega (arith, enough) in
        let now = top ∙ files_at-delete_files 0 (removals task) ls lt in
        let (_, _, inputs, targets, all) = pick_compaction-Within c ls task picked in
        elim (zero_or_above task.level) [
          | inl base ↦ inl (
              now
              ∙ no_members _ (λ g i.
                let (m, other) = deleted_at-In 0 (removals task) (files_at 0 ls) g i in
                other (
                  subst (λ j. IsDeleted j g.file_number (removals task)) base
                    (removes_input task target_next g (subst (In g) (sym (all base)) m)))))
          | inr above ↦
              let unnamed : (n : ℕ) → IsDeleted 0 n (removals task) → ⊥ = λ n d.
                let (f, which, e) = removals-names task target_next 0 n d in
                elim which [
                  | inl (at, _) ↦ absurd (omega arith)
                  | inr (at, _) ↦ absurd (omega arith)
                ] in
              inr (
                now ∙ deleted_at-other 0 (removals task) (files_at 0 ls) unnamed,
                λ g m k. (task_kept 0 g m (λ gone. unnamed g.file_number gone.1)).1 k,
              )
        ]

    -- The task is a pass, if the outcome under each key is that of one.
    task-Pass :
        ((k : Key)
          → (In out (files_at (suc task.level) ls')
              × ((x : Entry) × ((held files' k out ≡ some x)
                    × Source (held files) (Gone ls task) k x)))
            ⊎ (((j : ℕ) (q : FileMetaData) → Gone ls task j q → held files k q ≡ none)
                ⊎ ((x : Entry) × (Source (held files) (Gone ls task) k x
                      × (is_tombstone x.value_type ≡ true)
                      × ((j : ℕ) (g : FileMetaData) → In g (files_at j ls) → j ≤ suc task.level)))))
        → Pass (held files) (held files') ls ls' task.level (Gone ls task) out
    task-Pass outcome = record {
      before = task_before;
      kept = task_kept;
      gone_at =
          λ j g gone. (gone.0, elim (Gone-task j g gone) [ inl e ↦ inl e.0 | inr e ↦ inr e.0 ]);
      decide = λ j g m. elim (IsDeleted-or_not j g.file_number (removals task)) [
        | inl d ↦ inl (m, d)
        | inr other ↦ inr (λ gone. other gone.1)
      ];
      complete = task_complete;
      all_of_zero = λ base g m.
          let (_, _, inputs, targets, all) = pick_compaction-Within c ls task picked in
          (
            m,
            subst (λ j. IsDeleted j g.file_number (removals task)) base
                (removes_input task target_next g (subst (In g) (sym (all base)) m)),
          );
      top = task_top;
      fresh = below;
      outcome = outcome;
    }

    pub task_result :
        ((k : Key)
          → (In out (files_at (suc task.level) ls')
              × ((x : Entry) × ((held files' k out ≡ some x)
                    × Source (held files) (Gone ls task) k x)))
            ⊎ (((j : ℕ) (q : FileMetaData) → Gone ls task j q → held files k q ≡ none)
                ⊎ ((x : Entry) × (Source (held files) (Gone ls task) k x
                      × (is_tombstone x.value_type ≡ true)
                      × ((j : ℕ) (g : FileMetaData) → In g (files_at j ls) → j ≤ suc task.level)))))
        → IsPassed Table files files' ls ls' task
    task_result outcome = ((out, task-Pass outcome), new-Stored)
