-- ===== src/Types/Range.antt =====
-- `KeyRange` of src/types.rs.
use Prim.Native.Nat.Ordering.{lt, gt}
use flash_store.Prelude.{
  ◌≡◌, ◌≢◌, ◌↔◌, refl, ◌++◌, [], ◌∷◌, Option, none, some, true, false, arith, if◌then◌else◌,
  Bool-cases, inl, inr,
}
use flash_store.Bytes.{
  cmp, cmp_refl, cmp_swap, cmp_succ, cmp_below_succ, cmp_nil, gt_of_between, key_lt,
}
use flash_store.Types.{Key, KeyRange, point, contains, overlaps, bounds_cross}

-- A point range contains its key and no other.
pub contains-point : (k j : Key) → (contains (point k) j ≡ true) ↔ (j ≡ k)
unfolding contains point
contains-point k j =
    ground (arith, cmp_succ k j, cmp_below_succ k, cmp_refl k, cmp_swap j (k ++ 0 ∷ []))

-- The facts about a contained key, with an absent start read as the least key.
abbrev lower : Option Key → Key
lower none = []
lower (some s) = s

abbrev Above : Option Key → Key → Type 0
Above none j = Unit
Above (some e) j = cmp e j ≡ gt

contains_iff :
    (r : KeyRange) (j : Key)
    → (contains r j ≡ true) ↔ ((cmp j (lower r.start) ≢ lt) × Above r.end j)
unfolding contains
contains_iff r j = ground (arith, cmp_nil j)

overlaps_iff :
    (a b : KeyRange)
    → (overlaps a b ≡ true)
      ↔ (bounds_cross a.start b.end ≡ false) × (bounds_cross b.start a.end ≡ false)
unfolding overlaps
overlaps_iff a b = ground arith

Above-mono : (e : Option Key) (s j : Key) → cmp j s ≢ lt → Above e j → Above e s
Above-mono none s j h p = tt
Above-mono (some e) s j h p = gt_of_between s j e h p

-- The test of `overlaps` on one start and one end, both ways.
Above-of_uncrossed :
    (s e : Option Key) (j : Key) → bounds_cross s e ≡ false → Above e j → Above e (lower s)
Above-of_uncrossed s none j h p = tt
Above-of_uncrossed none (some e) j h p = Above-mono (some e) [] j (cmp_nil j) p
Above-of_uncrossed (some s) (some e) j h p = ground arith

uncrossed_of_Above :
    (s e : Option Key) (j : Key) → cmp j (lower s) ≢ lt → Above e j → bounds_cross s e ≡ false
uncrossed_of_Above none e j h p = refl
uncrossed_of_Above (some s) none j h p = refl
uncrossed_of_Above (some s) (some e) j h p = ground (arith, gt_of_between s j e)

abbrev later : Key → Key → Key
later s t = if key_lt s t then t else s

later-ge : (s t : Key) → (cmp (later s t) s ≢ lt) × (cmp (later s t) t ≢ lt)
later-ge s t = ground (arith, cmp_refl s, cmp_refl t, cmp_swap s t)

Above-later : (e : Option Key) (s t : Key) → Above e s → Above e t → Above e (later s t)
Above-later e s t p q = elim (Bool-cases (key_lt s t)) [ inl y ↦ rw y q | inr n ↦ rw n p ]

-- Of two key ranges that each contain some key, `overlaps` says whether they contain a common
-- one.
pub overlaps-iff_common :
    (a b : KeyRange) (i j : Key)
    → contains a i ≡ true
    → contains b j ≡ true
    → (overlaps a b ≡ true) ↔ ((k : Key) × (contains a k ≡ true) × (contains b k ≡ true))
overlaps-iff_common a b i j p q = (
  λ h.
      let (ab, ba) = (overlaps_iff a b).0 h in
      let (ai, ae) = (contains_iff a i).0 p in
      let (bj, be) = (contains_iff b j).0 q in
      let s = lower a.start in
      let t = lower b.start in
      (
        later s t,
        (contains_iff a _).1 (
          (later-ge s t).0,
          Above-later a.end s t (Above-mono a.end s i ai ae)
              (Above-of_uncrossed b.start a.end i ba ae),
        ),
        (contains_iff b _).1 (
          (later-ge s t).1,
          Above-later b.end s t (Above-of_uncrossed a.start b.end j ab be)
              (Above-mono b.end t j bj be),
        ),
      ),
  λ (k, u, v).
      let (ak, ae) = (contains_iff a k).0 u in
      let (bk, be) = (contains_iff b k).0 v in
      (overlaps_iff a b).1
        (uncrossed_of_Above a.start b.end k ak be, uncrossed_of_Above b.start a.end k bk ae),
)
