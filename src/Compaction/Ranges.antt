-- ===== src/Compaction/Ranges.antt =====
-- Which files of the next level join a compaction.
use flash_store.Prelude.{
  ◌≡◌, refl, true, List, [], ◌∷◌, In, Bool-cases, inl, inr, arith, ◌↔◌, if◌then◌else◌,
}
use flash_store.Bytes.{Bytes, key_lt, key_le, cmp_swap, eq_of_cmp, lt_trans, cmp_refl}
use flash_store.Manifest.{FileMetaData}
use flash_store.Compaction.{ranges_overlap, find_overlapping_files, key_range}

-- A key between two keys, ends included.
abbrev pub Between : Bytes → Bytes → Bytes → Type 0
Between lo hi k = (key_le lo k ≡ true) × (key_le k hi ≡ true)

-- Ranges with a common key overlap.
pub overlap_of_common :
    (min1 max1 min2 max2 k : Bytes)
    → Between min1 max1 k
    → Between min2 max2 k
    → ranges_overlap min1 max1 min2 max2 ≡ true
unfolding ranges_overlap
overlap_of_common min1 max1 min2 max2 k a b = ground (
  arith,
  cmp_swap k max1,
  cmp_swap min1 k,
  cmp_swap k max2,
  cmp_swap min2 k,
  cmp_swap max1 min2,
  cmp_swap max2 min1,
  lt_trans max1 min2 k,
  lt_trans max2 min1 k,
  eq_of_cmp min2 k,
  eq_of_cmp min1 k,
  eq_of_cmp k max1,
  eq_of_cmp k max2,
  cmp_refl k,
)

common_of_overlap :
    (min1 max1 min2 max2 : Bytes)
    → key_le min1 max1 ≡ true
    → key_le min2 max2 ≡ true
    → ranges_overlap min1 max1 min2 max2 ≡ true
    → (k : Bytes) × (Between min1 max1 k × Between min2 max2 k)
unfolding ranges_overlap
common_of_overlap min1 max1 min2 max2 a b h = elim (Bool-cases (key_lt min1 min2)) [
  | inl below ↦ (min2, ground (arith, cmp_swap max1 min2, cmp_swap max2 min1, cmp_refl min2))
  | inr above ↦ (min1, ground (arith, cmp_swap min1 min2, cmp_swap max2 min1, cmp_refl min1))
]

-- Two ranges whose ends are in order overlap exactly if a key is in both.
pub ranges_overlap-iff_common :
    (min1 max1 min2 max2 : Bytes)
    → key_le min1 max1 ≡ true
    → key_le min2 max2 ≡ true
    → (ranges_overlap min1 max1 min2 max2 ≡ true)
      ↔ ((k : Bytes) × (Between min1 max1 k × Between min2 max2 k))
ranges_overlap-iff_common min1 max1 min2 max2 a b = (
  common_of_overlap min1 max1 min2 max2 a b,
  λ c. overlap_of_common min1 max1 min2 max2 c.0 c.1.0 c.1.1,
)

pub key_le_trans : (a b c : Bytes) → key_le a b ≡ true → key_le b c ≡ true → key_le a c ≡ true
key_le_trans a b c p q = ground (arith, eq_of_cmp a b, eq_of_cmp b c, lt_trans a b c)

-- The range that the loop finds holds the range it begins with and that of every file.
pub key_range-wide :
    (lo hi : Bytes) (fs : List FileMetaData)
    → (key_le (key_range lo hi fs).0 lo ≡ true) × (key_le hi (key_range lo hi fs).1 ≡ true)
unfolding key_range
key_range-wide lo hi [] = ground (arith, cmp_refl lo, cmp_refl hi)
key_range-wide lo hi (f ∷ fs) =
    let lo' = (if key_lt f.smallest_key lo then f.smallest_key else lo) in
    let hi' = (if key_lt hi f.largest_key then f.largest_key else hi) in
    let (p, q) = key_range-wide lo' hi' fs in
    (
      key_le_trans _ lo' lo p (ground (arith, cmp_refl lo)),
      key_le_trans hi hi' _ (ground (arith, cmp_refl hi)) q,
    )

pub key_range-covers :
    (fs : List FileMetaData) (lo hi : Bytes) (f : FileMetaData)
    → In f fs
    → (key_le (key_range lo hi fs).0 f.smallest_key ≡ true)
      × (key_le f.largest_key (key_range lo hi fs).1 ≡ true)
unfolding key_range
key_range-covers [] lo hi f h = elim h [ ]
key_range-covers (g ∷ fs) lo hi f (inr later) = key_range-covers fs _ _ f later
key_range-covers (g ∷ fs) lo hi f (inl here) =
    let lo' = (if key_lt g.smallest_key lo then g.smallest_key else lo) in
    let hi' = (if key_lt hi g.largest_key then g.largest_key else hi) in
    let (p, q) = key_range-wide lo' hi' fs in
    rw here (
      key_le_trans _ lo' g.smallest_key p
          (ground (arith, cmp_refl g.smallest_key, cmp_swap g.smallest_key lo)),
      key_le_trans g.largest_key hi' _
          (ground (arith, cmp_refl g.largest_key, cmp_swap hi g.largest_key)) q,
    )

pub find_overlapping-finds :
    (fs : List FileMetaData) (lo hi k : Bytes) (g : FileMetaData)
    → In g fs
    → Between lo hi k
    → Between g.smallest_key g.largest_key k
    → In g (find_overlapping_files fs lo hi)
unfolding find_overlapping_files
find_overlapping-finds [] lo hi k g h a b = elim h [ ]
find_overlapping-finds (f ∷ fs) lo hi k g (inl here) a b =
    rw (← here) (rw (overlap_of_common lo hi g.smallest_key g.largest_key k a b) (inl refl))
find_overlapping-finds (f ∷ fs) lo hi k g (inr later) a b =
    let rest = find_overlapping-finds fs lo hi k g later a b in
    elim (Bool-cases (ranges_overlap lo hi f.smallest_key f.largest_key)) [
      | inl overlaps ↦ rw overlaps (inr rest)
      | inr apart ↦ rw apart rest
    ]
