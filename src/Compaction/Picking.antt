-- ===== src/Compaction/Picking.antt =====
-- Which files a picked compaction reads.
use flash_store.Prelude.{
  suc, ap, sym, ◌∙◌, subst, length, leb, ltb, ℕ, ◌≡◌, true, List, [], ◌∷◌, In, ◌+◌, ◌-◌, ◌<◌,
  Option, none, some, get_elem?, if_keeps, inl, inr, arith,
}
use mathlib.Core.Option.{some-injective}
use flash_store.Bytes.{Bytes, key_le, cmp_refl}
use flash_store.Manifest.{FileMetaData, Levels}
use flash_store.Compaction.Ranges.{
  Between, key_le_trans, key_range-wide, key_range-covers, find_overlapping-finds,
}
use flash_store.Compaction.{
  key_range, next_overlapping, level_size, pick_by_size, pick_compaction, Compactor, CompactionTask,
}

-- The file `g` of the list `l`, with a key in common with `f`, is one of `found`.
abbrev Covers : List FileMetaData → List FileMetaData → List FileMetaData → Type 0
Covers inputs l targets =
    (f g : FileMetaData) (k : Bytes)
    → In f inputs
    → In g l
    → Between f.smallest_key f.largest_key k
    → Between g.smallest_key g.largest_key k
    → In g targets

-- For a task from the levels that begin at `level`.
abbrev TaskCovers : ℕ → Levels → CompactionTask → Type 0
TaskCovers level ls task =
    (level < task.target_level)
    × ((l : List FileMetaData)
        → get_elem? ls (task.target_level - level) ≡ some l
        → Covers task.input_files l task.target_input_files)

abbrev pub OfSome : (CompactionTask → Type 0) → Option CompactionTask → Type 0
OfSome P none = Unit
OfSome P (some task) = P task

next_overlapping-Covers :
    (ls : Levels) (inputs : List FileMetaData) (lo hi : Bytes) (l : List FileMetaData)
    → ((f : FileMetaData)
        → In f inputs
        → (key_le lo f.smallest_key ≡ true) × (key_le f.largest_key hi ≡ true))
    → get_elem? ls 0 ≡ some l
    → Covers inputs l (next_overlapping ls lo hi)
unfolding next_overlapping
next_overlapping-Covers [] inputs lo hi l w e f g k i j a b = cc
next_overlapping-Covers (m ∷ ls) inputs lo hi l w e f g k i j a b =
    let (p, q) = w f i in
    find_overlapping-finds m lo hi k g (rw (some-injective m l e) j)
      (key_le_trans lo f.smallest_key k p a.0, key_le_trans k f.largest_key hi a.1 q) b

later_level :
    (level : ℕ) (l : List FileMetaData) (ls : Levels) (o : Option CompactionTask)
    → OfSome (TaskCovers (level + 1) ls) o
    → OfSome (TaskCovers level (l ∷ ls)) o
later_level level l ls none h = tt
later_level level l ls (some task) (p, q) =
    let step : task.target_level - level ≡ suc (task.target_level - (level + 1)) = omega arith in
    (omega arith, λ m e. q m (ap (get_elem? (l ∷ ls)) (sym step) ∙ e))

only_file :
    (f g : FileMetaData)
    → In g (f ∷ [])
    → (key_le f.smallest_key g.smallest_key ≡ true) × (key_le g.largest_key f.largest_key ≡ true)
only_file f g (inl same) = rw same (ground (arith, cmp_refl f.smallest_key, cmp_refl f.largest_key))
only_file f g (inr h) = elim h [ ]

next_level :
    (level : ℕ) (l : List FileMetaData) (ls : Levels) (inputs : List FileMetaData) (lo hi : Bytes)
    (m : List FileMetaData)
    → ((f : FileMetaData)
        → In f inputs
        → (key_le lo f.smallest_key ≡ true) × (key_le f.largest_key hi ≡ true))
    → get_elem? (l ∷ ls) (level + 1 - level) ≡ some m
    → Covers inputs m (next_overlapping ls lo hi)
next_level level l ls inputs lo hi m w e =
    let one : level + 1 - level ≡ 1 = omega arith in
    next_overlapping-Covers ls inputs lo hi m w (ap (get_elem? (l ∷ ls)) (sym one) ∙ e)

pick_by_size-covers :
    (c : Compactor) (level : ℕ) (ls : Levels)
    → OfSome (TaskCovers level ls) (pick_by_size c level ls)
unfolding pick_by_size
pick_by_size-covers c level [] = tt
pick_by_size-covers c level ([] ∷ ls) =
    later_level level [] ls _ (pick_by_size-covers c (level + 1) ls)
pick_by_size-covers c level ((f ∷ fs) ∷ ls) =
    let rest = later_level level (f ∷ fs) ls _ (pick_by_size-covers c (level + 1) ls) in
    let P = OfSome (TaskCovers level ((f ∷ fs) ∷ ls)) in
    if_keeps P (leb c.max_levels (level + 1)) _ _ rest (
      if_keeps P (ltb _ (level_size (f ∷ fs))) _ _
        (omega arith, λ m e. next_level level (f ∷ fs) ls (f ∷ []) _ _ m (only_file f) e) rest)

l0_range :
    (f : FileMetaData) (fs : List FileMetaData) (g : FileMetaData)
    → In g (f ∷ fs)
    → (key_le (key_range f.smallest_key f.largest_key fs).0 g.smallest_key ≡ true)
      × (key_le g.largest_key (key_range f.smallest_key f.largest_key fs).1 ≡ true)
l0_range f fs g (inl same) = rw same (key_range-wide f.smallest_key f.largest_key fs)
l0_range f fs g (inr later) = key_range-covers fs f.smallest_key f.largest_key g later

pick-covers : (c : Compactor) (ls : Levels) → OfSome (TaskCovers 0 ls) (pick_compaction c ls)
unfolding pick_compaction
pick-covers c [] = tt
pick-covers c ([] ∷ ls) =
    if_keeps (OfSome (TaskCovers 0 ([] ∷ ls))) (leb c.max_levels 1) _ _ tt
      (later_level 0 [] ls _ (pick_by_size-covers c 1 ls))
pick-covers c ((f ∷ fs) ∷ ls) =
    let P = OfSome (TaskCovers 0 ((f ∷ fs) ∷ ls)) in
    if_keeps P (leb c.max_levels 1) _ _ tt (
      if_keeps P (leb c.l0_compaction_trigger (length (f ∷ fs))) _ _
        (omega arith, λ m e. next_overlapping-Covers ls (f ∷ fs) _ _ m (l0_range f fs) e)
        (later_level 0 (f ∷ fs) ls _ (pick_by_size-covers c 1 ls)))

-- Of a picked task: a file of the target level whose range has a key in common with the range of
-- one of the input files is one of the target's input files.
pub pick_compaction_complete :
    (c : Compactor) (ls : Levels) (task : CompactionTask) (l : List FileMetaData)
    (f g : FileMetaData) (k : Bytes)
    → pick_compaction c ls ≡ some task
    → get_elem? ls task.target_level ≡ some l
    → In f task.input_files
    → In g l
    → Between f.smallest_key f.largest_key k
    → Between g.smallest_key g.largest_key k
    → In g task.target_input_files
pick_compaction_complete c ls task l f g k h e i j a b =
    let same : task.target_level - 0 ≡ task.target_level = omega arith in
    (subst (OfSome (TaskCovers 0 ls)) h (pick-covers c ls)).1 l (ap (get_elem? ls) same ∙ e) f g k i
      j a b
