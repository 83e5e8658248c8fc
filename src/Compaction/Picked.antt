-- ===== src/Compaction/Picked.antt =====
-- Where the files of a picked compaction come from.
use flash_store.Prelude.{
  suc, subst, length, leb, ltb, ℕ, ◌≡◌, refl, List, [], ◌∷◌, In, ◌+◌, ◌-◌, ◌<◌, ◌≤◌, Option, none,
  some, inl, inr, arith, Bool-cases, if_keeps,
}
use flash_store.Bytes.{Bytes}
use flash_store.Manifest.{FileMetaData, Levels}
use flash_store.Manifest.Levels.{files_at}
use flash_store.Compaction.Picking.{OfSome}
use flash_store.Compaction.{
  ranges_overlap, find_overlapping_files, next_overlapping, level_size, pick_by_size,
  pick_compaction, Compactor, CompactionTask,
}

abbrev pub Within : List FileMetaData → List FileMetaData → Type 0
Within fs l = (g : FileMetaData) → In g fs → In g l

-- A task on two neighbouring levels with numbers below `max_levels`, with files of these levels, of which the
-- first is number `base`.
abbrev TaskWithin : Compactor → ℕ → Levels → CompactionTask → Type 0
TaskWithin c base ls task =
    (base ≤ task.level)
    × (task.target_level ≡ suc task.level)
    × (task.target_level < c.max_levels)
    × Within task.input_files (files_at (task.level - base) ls)
    × Within task.target_input_files (files_at (suc (task.level - base)) ls)

find_overlapping-Within :
    (l : List FileMetaData) (lo hi : Bytes) → Within (find_overlapping_files l lo hi) l
unfolding find_overlapping_files
find_overlapping-Within [] lo hi g i = i
find_overlapping-Within (f ∷ fs) lo hi g i =
    elim (Bool-cases (ranges_overlap lo hi f.smallest_key f.largest_key)) [
      | inl p ↦ elim (rw p at i) [
        | inl e ↦ inl e
        | inr j ↦ inr (find_overlapping-Within fs lo hi g j)
      ]
      | inr p ↦ inr (find_overlapping-Within fs lo hi g (rw p at i))
    ]

next_overlapping-Within :
    (ls : Levels) (lo hi : Bytes) → Within (next_overlapping ls lo hi) (files_at 0 ls)
unfolding next_overlapping
next_overlapping-Within [] lo hi g i = i
next_overlapping-Within (l ∷ ls) lo hi g i = find_overlapping-Within l lo hi g i

later_level :
    (c : Compactor) (base : ℕ) (l : List FileMetaData) (ls : Levels) (o : Option CompactionTask)
    → OfSome (TaskWithin c (base + 1) ls) o
    → OfSome (TaskWithin c base (l ∷ ls)) o
later_level c base l ls none h = tt
later_level c base l ls (some task) (le, next, high, inputs, targets) =
    let step : suc (task.level - (base + 1)) ≡ task.level - base = omega arith in
    (
      omega arith,
      next,
      high,
      λ g i. subst (λ n. In g (files_at n (l ∷ ls))) step (inputs g i),
      λ g i. subst (λ n. In g (files_at (suc n) (l ∷ ls))) step (targets g i),
    )

this_level :
    (c : Compactor) (base : ℕ) (l : List FileMetaData) (ls : Levels) (inputs : List FileMetaData)
    (lo hi : Bytes)
    → base + 1 < c.max_levels
    → Within inputs l
    → TaskWithin c base (l ∷ ls) (record {
      level = base;
      input_files = inputs;
      target_level = base + 1;
      target_input_files = next_overlapping ls lo hi;
    })
this_level c base l ls inputs lo hi high w =
    let zero_up : 0 ≡ base - base = omega arith in
    (
      omega arith,
      omega arith,
      high,
      λ g i. subst (λ n. In g (files_at n (l ∷ ls))) zero_up (w g i),
      λ g i.
          subst (λ n. In g (files_at (suc n) (l ∷ ls))) zero_up
            (next_overlapping-Within ls lo hi g i),
    )

first_file : (f : FileMetaData) (fs : List FileMetaData) → Within (f ∷ []) (f ∷ fs)
first_file f fs g (inl e) = inl e
first_file f fs g (inr i) = absurd (elim i [ ])

pick_by_size-within :
    (c : Compactor) (base : ℕ) (ls : Levels)
    → OfSome (TaskWithin c base ls) (pick_by_size c base ls)
unfolding pick_by_size
pick_by_size-within c base [] = tt
pick_by_size-within c base ([] ∷ ls) =
    later_level c base [] ls _ (pick_by_size-within c (base + 1) ls)
pick_by_size-within c base ((f ∷ fs) ∷ ls) =
    let rest = later_level c base (f ∷ fs) ls _ (pick_by_size-within c (base + 1) ls) in
    elim (Bool-cases (leb c.max_levels (base + 1))) [
      | inl p ↦ rw p rest
      | inr p ↦ rw p (
          if_keeps (OfSome (TaskWithin c base ((f ∷ fs) ∷ ls))) (ltb _ (level_size (f ∷ fs))) _ _
            (this_level c base (f ∷ fs) ls (f ∷ []) f.smallest_key f.largest_key (ground arith)
              (first_file f fs))
            rest)
    ]

-- A task for all files of level 0, or one for a level above it.
abbrev FromZero : Levels → CompactionTask → Type 0
FromZero ls task = task.level ≡ 0 → task.input_files ≡ files_at 0 ls

by_size :
    (c : Compactor) (l : List FileMetaData) (ls : Levels)
    → OfSome (λ task. TaskWithin c 0 (l ∷ ls) task × FromZero (l ∷ ls) task) (pick_by_size c 1 ls)
by_size c l ls = both (pick_by_size c 1 ls) (pick_by_size-within c 1 ls)
  where
    both :
        (o : Option CompactionTask)
        → OfSome (TaskWithin c 1 ls) o
        → OfSome (λ task. TaskWithin c 0 (l ∷ ls) task × FromZero (l ∷ ls) task) o
    both none h = tt
    both (some task) h = (later_level c 0 l ls (some task) h, λ e. absurd (omega (arith, h.0)))

pick-within :
    (c : Compactor) (ls : Levels)
    → OfSome (λ task. TaskWithin c 0 ls task × FromZero ls task) (pick_compaction c ls)
unfolding pick_compaction
pick-within c [] = tt
pick-within c ([] ∷ ls) =
    if_keeps (OfSome (λ task. TaskWithin c 0 ([] ∷ ls) task × FromZero ([] ∷ ls) task))
      (leb c.max_levels 1) _ _ tt (by_size c [] ls)
pick-within c ((f ∷ fs) ∷ ls) =
    let P = OfSome (λ task. TaskWithin c 0 ((f ∷ fs) ∷ ls) task × FromZero ((f ∷ fs) ∷ ls) task) in
    elim (Bool-cases (leb c.max_levels 1)) [
      | inl p ↦ rw p tt
      | inr p ↦ rw p (
          if_keeps P (leb c.l0_compaction_trigger (length (f ∷ fs))) _ _
            (this_level c 0 (f ∷ fs) ls (f ∷ fs) _ _ (ground arith) (λ g i. i), λ e. refl)
            (by_size c (f ∷ fs) ls))
    ]

-- A picked task has a level and the next one, whose number is below `max_levels`, input files of
-- these levels, and all files of level 0, if it is for that.
pub pick_compaction-Within :
    (c : Compactor) (ls : Levels) (task : CompactionTask)
    → pick_compaction c ls ≡ some task
    → (task.target_level ≡ suc task.level)
      × (task.target_level < c.max_levels)
      × Within task.input_files (files_at task.level ls)
      × Within task.target_input_files (files_at (suc task.level) ls)
      × (task.level ≡ 0 → task.input_files ≡ files_at 0 ls)
pick_compaction-Within c ls task h =
    let ((_, next, high, inputs, targets), zero) =
      subst (OfSome (λ task. TaskWithin c 0 ls task × FromZero ls task)) h (pick-within c ls) in
    let same : task.level - 0 ≡ task.level = omega arith in
    (
      next,
      high,
      λ g i. subst (λ n. In g (files_at n ls)) same (inputs g i),
      λ g i. subst (λ n. In g (files_at (suc n) ls)) same (targets g i),
      zero,
    )
