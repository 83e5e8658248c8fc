-- ===== src/Bytes.antt =====
-- Byte strings (`bytes::Bytes`, `&[u8]`, `Vec<u8>`) as lists of numbers, and their order: Rust's
-- `Ord` of slices, which is lexicographic.
use Prim.Native.Nat.Ordering.{lt, eq, gt}
use flash_store.Prelude.{
  ℕ, ◌≡◌, ◌≢◌, refl, List, [], ◌∷◌, ◌++◌, compare, Ordering, Bool, not, arith,
}
use flash_store.Ordered.{IsTotalOrder, reverse, is_lt, is_gt, is_eq}

abbrev pub Bytes : Type 0
Bytes = List ℕ

unfoldable pub cmp : Bytes → Bytes → Ordering
cmp [] [] = eq
cmp [] (y ∷ ys) = lt
cmp (x ∷ xs) [] = gt
cmp (x ∷ xs) (y ∷ ys) = elim (compare x y) [ lt ↦ lt | eq ↦ cmp xs ys | gt ↦ gt ]

pub cmp_refl : (a : Bytes) → cmp a a ≡ eq
unfolding cmp
cmp_refl [] = refl
cmp_refl (x ∷ xs) = ground (arith, cmp_refl xs)

pub eq_of_cmp : (a b : Bytes) → cmp a b ≡ eq → a ≡ b
unfolding cmp
eq_of_cmp [] [] h = refl
eq_of_cmp [] (y ∷ ys) h = cc
eq_of_cmp (x ∷ xs) [] h = cc
eq_of_cmp (x ∷ xs) (y ∷ ys) h = ground (arith, eq_of_cmp xs ys)

pub cmp_swap : (a b : Bytes) → cmp b a ≡ reverse (cmp a b)
unfolding cmp
cmp_swap [] [] = refl
cmp_swap [] (y ∷ ys) = refl
cmp_swap (x ∷ xs) [] = refl
cmp_swap (x ∷ xs) (y ∷ ys) = ground (arith, cmp_swap xs ys)

pub lt_trans : (a b c : Bytes) → cmp a b ≡ lt → cmp b c ≡ lt → cmp a c ≡ lt
unfolding cmp
lt_trans [] b [] h k = ground arith
lt_trans [] b (z ∷ zs) h k = refl
lt_trans (x ∷ xs) [] c h k = cc
lt_trans (x ∷ xs) (y ∷ ys) [] h k = cc
lt_trans (x ∷ xs) (y ∷ ys) (z ∷ zs) h k = ground (arith, lt_trans xs ys zs)

pub cmp-IsTotalOrder : IsTotalOrder cmp
cmp-IsTotalOrder = record {
  cmp_refl = cmp_refl;
  eq_of_cmp = eq_of_cmp;
  cmp_swap = cmp_swap;
  lt_trans = lt_trans;
}

-- The operators `<`, `<=`, `==` of the source on keys.
abbrev pub key_lt : Bytes → Bytes → Bool
key_lt a b = is_lt (cmp a b)

abbrev pub key_le : Bytes → Bytes → Bool
key_le a b = not (is_gt (cmp a b))

abbrev pub key_eq : Bytes → Bytes → Bool
key_eq a b = is_eq (cmp a b)

infix 50 ◌≺◌
abbrev pub ◌≺◌ : Bytes → Bytes → Type 0
a ≺ b = cmp a b ≡ lt

-- The least byte string above `k` is `k` with a zero byte.
pub cmp_succ : (k j : Bytes) → cmp j k ≢ lt → cmp j (k ++ 0 ∷ []) ≡ lt → j ≡ k
unfolding cmp
cmp_succ [] [] h p = refl
cmp_succ [] (y ∷ []) h p = ground arith
cmp_succ [] (y ∷ z ∷ ys) h p = ground arith
cmp_succ (x ∷ xs) [] h p = absurd (h refl)
cmp_succ (x ∷ xs) (y ∷ ys) h p = ground (arith, cmp_succ xs ys)

pub cmp_below_succ : (k : Bytes) → cmp k (k ++ 0 ∷ []) ≡ lt
unfolding cmp
cmp_below_succ [] = refl
cmp_below_succ (x ∷ xs) = ground (arith, cmp_below_succ xs)

pub cmp_nil : (j : Bytes) → cmp j [] ≢ lt
unfolding cmp
cmp_nil [] h = cc
cmp_nil (x ∷ xs) h = cc

-- From `s <= j` and `j < e` follows `s < e`.
pub gt_of_between : (s j e : Bytes) → cmp j s ≢ lt → cmp e j ≡ gt → cmp e s ≡ gt
gt_of_between s j e h p =
    ground (arith, cmp_swap s j, cmp_swap e j, cmp_swap s e, eq_of_cmp j s, lt_trans s j e)
