-- ===== src/Engine/Layers/Compacted.antt =====
-- `compact` of src/engine.rs changes no read, and keeps the layers in order.
use flash_store.Prelude.{
  ℕ, suc, ◌<◌, ◌≡◌, refl, ap, sym, ◌∙◌, subst, List, [], ◌∷◌, Option, some, In, inl, inr, arith,
  true, length, All,
}
use flash_store.Compaction.{Compactor, CompactionTask, pick_compaction}
use flash_store.Compaction.Picked.{pick_compaction-Within}
use flash_store.Engine.Compacting.{remove_files}
use flash_store.Engine.Flushing.{update_file, last_key}
use flash_store.Error.{ok}
use flash_store.Manifest.{FileMetaData, Levels, at_level, push_file, delete_files}
use flash_store.Manifest.Levels.{files_at, length-delete_files, length-at_level}
use flash_store.Manifest.Members.{IsDeleted, files_at-In, added-In, added-keeps}
use flash_store.Sstable.Block.Search.{IsSorted, find}
use flash_store.Tables.{Tables}
use flash_store.Types.{Key, Entry}
use flash_store.Engine.Layers.{IsLayered, held, Stored, or_no_entries, table_entries}
use flash_store.Engine.Layers.Gathered.{all_entries, sorted_range}
use flash_store.Compaction.Ranges.{Between}
use flash_store.Engine.Layers.Removed.{removals, removals-names, remove_files-other}
use flash_store.Engine.Layers.Step.{
  outputs, outputs-IsSorted, task_files, output-Source, output_cases,
}
use flash_store.Engine.Layers.Task.{task_result, IsPassed}

-- Level 0 is not touched by an addition above it.
top-at_level :
    (i : ℕ) (f : List FileMetaData → List FileMetaData) (ls : Levels)
    → files_at 0 (at_level (suc i) f ls) ≡ files_at 0 ls
unfolding at_level
top-at_level i f [] = refl
top-at_level i f (l ∷ ls) = refl

pub update_file-other :
    {A : Type 0} (files : ℕ → Option A) (n : ℕ) (t : A) (m : ℕ)
    → m < n
    → update_file files n t m ≡ files m
update_file-other files n t m h = ground arith

pub update_file-same :
    {A : Type 0} (files : ℕ → Option A) (n : ℕ) (t : A) → update_file files n t n ≡ some t
update_file-same files n t = ground arith

module _ (Table : Type 0) ⦃tables : Tables Table⦄ (files : ℕ → Option Table) (ls : Levels)
    (c : Compactor) (task : CompactionTask) (n : ℕ) (layered : IsLayered (held files) ls)
    (stored : (j : ℕ) (g : FileMetaData) → In g (files_at j ls) → Stored files g)
    (picked : pick_compaction c ls ≡ some task) (high : c.max_levels ≡ length ls)
    (below : (j : ℕ) (g : FileMetaData) → In g (files_at j ls) → g.file_number < n) where
  pub empty_pass :
      (ls' : Levels)
      → outputs c task (all_entries files (task_files task)) ≡ []
      → ls' ≡ delete_files (removals task) ls
      → IsPassed Table files (remove_files files (removals task)) ls ls' task
  unfolding find
  empty_pass ls' none_left e =
      task_result Table files (remove_files files (removals task)) ls ls' c task layered stored
        picked (omega arith)
        (record { file_number = n; file_size = 0; smallest_key = []; largest_key = [] }) below
        (λ m lt other. remove_files-other files (removals task) m other)
        (λ j g i. inl (subst (λ l. In g (files_at j l)) e i))
        (λ j g i. subst (λ l. In g (files_at j l)) (sym e) i) (ap (files_at 0) e)
        (λ k. elim (output_cases Table files ls c task layered stored picked high k) [
          | inl (x, (h, s)) ↦ let gone = ap (find k) none_left in absurd cc
          | inr other ↦ inr other
        ])

  -- The number of the output is not one of the removed ones.
  number-kept : (j : ℕ) → IsDeleted j n (removals task) → ⊥
  number-kept j d =
      let (next, _, inputs, targets, _) = pick_compaction-Within c ls task picked in
      let (f, which, e) = removals-names task next j n d in
      elim which [
        | inl (at, i) ↦ let lt = below task.level f (inputs f i) in omega arith
        | inr (at, i) ↦ let lt = below (suc task.level) f (targets f i) in omega arith
      ]

  output_there : (t : Table) → remove_files (update_file files n t) (removals task) n ≡ some t
  output_there t =
      remove_files-other (update_file files n t) (removals task) n number-kept
      ∙ update_file-same files n t

  output_held :
      (k : Key) (t : Table) (es : List Entry) (out : FileMetaData)
      → out.file_number ≡ n
      → tables.read_all t ≡ ok es
      → held (remove_files (update_file files n t) (removals task)) k out ≡ find k es
  output_held k t es out num read =
      ap (λ m. find k (table_entries (remove_files (update_file files n t) (removals task) m))) num
      ∙ ap (λ o. find k (table_entries o)) (output_there t)
      ∙ ap (λ r. find k (or_no_entries r)) read

  pub output_pass :
      (ls' : Levels) (e : Entry) (es : List Entry) (size : ℕ)
      → outputs c task (all_entries files (task_files task)) ≡ e ∷ es
      → tables.fits (e ∷ es) ≡ true
      → (out : FileMetaData)
      → out ≡ record {
        file_number = n;
        file_size = size;
        smallest_key = e.key;
        largest_key = last_key e.key es;
      }
      → ls'
        ≡ at_level
            (suc task.level)
            (push_file (suc task.level) out)
            (delete_files (removals task) ls)
      → IsPassed Table files
          (remove_files (update_file files n (tables.build (e ∷ es)).0) (removals task))
          ls
          ls'
          task
  output_pass ls' e es size h fit out is_out l =
      let t = (tables.build (e ∷ es)).0 in
      let files' = remove_files (update_file files n t) (removals task) in
      let target = suc task.level in
      let ds = delete_files (removals task) ls in
      let sorted : IsSorted (e ∷ es) =
        subst IsSorted h (outputs-IsSorted c task (all_entries files (task_files task))) in
      let read = tables.read_all-build (e ∷ es) sorted fit in
      let num : out.file_number ≡ n = ap (λ x. x.file_number) is_out in
      let holds : (k : Key)
          → held files' k out ≡ find k (outputs c task (all_entries files (task_files task))) =
        λ k. output_held k t (e ∷ es) out num read ∙ ap (find k) (sym h) in
      let sound : Stored files' out = (
        t,
        (
          ap files' num ∙ output_there t,
          record {
            entries = e ∷ es;
            read_all = read;
            sorted = sorted;
            lookup = λ k. tables.lookup-build (e ∷ es) k sorted fit;
            ranged =
                subst (λ x. All (λ f. Between x.smallest_key x.largest_key f.key) (e ∷ es))
                  (sym is_out) (sorted_range e es sorted);
          },
        ),
      ) in
      task_result Table files files' ls ls' c task layered stored picked (omega arith) out
        (λ j g i. omega (arith, below j g i, num))
        (λ m lt other.
          remove_files-other (update_file files n t) (removals task) m other
          ∙ update_file-other files n t m (omega arith))
        (λ j g i.
          let now = subst (λ l. In g (files_at j l)) l i in
          elim (added-In target out ds j g
            (omega (arith, length-at_level target (push_file target out) ds, files_at-In j _ g now))
            now) [
              | inl old ↦ inl old
              | inr new ↦ inr (
                new.0,
                new.1,
                λ k x p.
                    output-Source Table files ls c task layered stored picked high k x
                      (sym (holds k) ∙ p),
                sound,
              )
            ])
        (λ j g i.
          subst (λ l. In g (files_at j l)) (sym l)
            (added-keeps target out ds j g (files_at-In j ds g i) (inl i)))
        (ap (files_at 0) l ∙ top-at_level task.level (push_file target out) ds)
        (λ k. elim (output_cases Table files ls c task layered stored picked high k) [
          | inl (x, (p, s)) ↦
              let lt : target < length ds = omega (
                arith,
                length-delete_files (removals task) ls,
                (pick_compaction-Within c ls task picked).0,
                (pick_compaction-Within c ls task picked).1,
              ) in
              inl (
                subst (λ l. In out (files_at target l)) (sym l)
                    (added-keeps target out ds target out lt (inr (refl, refl))),
                (x, (holds k ∙ p, s)),
              )
          | inr other ↦ inr other
        ])
