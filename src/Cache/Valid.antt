-- ===== src/Cache/Valid.antt =====
-- The invariant of src/cache/mod.rs.
use flash_store.Prelude.{
  ◌≤◌, ◌<◌, ◌≡◌, inl, inr, ap, sym, ◌∙◌, false, List, [], ◌∷◌, ◌++◌, some, ◌==◌, length, arith, All,
  All-append, All-left, All-right, In, Bool-cases, subst,
}
use flash_store.Cache.{Slot, BlockKey, Nodes, LruInner, SlotMap, same_key, slot_of}
use flash_store.Cache.Chain.{NoDup}
use flash_store.Cache.Contents.{payload, HasKey, Mapped, Listed, same_key-eq}
use flash_store.Cache.Links.{Lists}

-- The slots in use are linked in some order of use; with the free ones they are different slots of
-- the vector; the map has just the keys of the slots in use; and there are at most `capacity`.
pub record Valid (order : List Slot) (s : LruInner) : Type 0 where
  pub lists : Lists s order
  pub nodup : NoDup (order ++ s.free_indices)
  pub below : All (λ i. i < s.nodes_len) (order ++ s.free_indices)
  pub mapped : Mapped s.nodes order s.map
  pub listed : Listed s.nodes s.map order
  pub bounded : length s.map ≤ s.capacity

pub In-split :
    (i : Slot) (is : List Slot)
    → In i is
    → (xs : List Slot) × (ys : List Slot) × (is ≡ xs ++ i ∷ ys)
In-split i [] h = elim h [ ]
In-split i (j ∷ is) (inl e) = ([], is, ap (λ x. x ∷ is) (sym e))
In-split i (j ∷ is) (inr h) = let (xs, ys, e) = In-split i is h in (j ∷ xs, ys, ap (◌∷◌ j) e)

pub In-front :
    (x : Slot) (xs : List Slot) (i : Slot) (ys : List Slot)
    → In x (xs ++ i ∷ ys)
    → In x (i ∷ (xs ++ ys))
In-front x [] i ys h = h
In-front x (y ∷ xs) i ys (inl e) = inr (inl e)
In-front x (y ∷ xs) i ys (inr h) = elim (In-front x xs i ys h) [
  | inl e ↦ inl e
  | inr r ↦ inr (inr r)
]

module _ (P : Slot → Type 0) where
  pub All-front :
      (xs : List Slot) (i : Slot) (ys : List Slot) → All P (xs ++ i ∷ ys) → All P (i ∷ (xs ++ ys))
  All-front xs i ys h =
      let r = All-right P xs (i ∷ ys) h in (r.0, All-append P xs ys (All-left P xs (i ∷ ys) h) r.1)

  pub All-middle :
      (xs : List Slot) (i : Slot) (ys : List Slot) → All P (i ∷ (xs ++ ys)) → All P (xs ++ i ∷ ys)
  All-middle xs i ys h =
      All-append P xs (i ∷ ys) (All-left P xs ys h.1) (h.0, All-right P xs ys h.1)

flip : (i j : Slot) → (i == j) ≡ false → (j == i) ≡ false
flip i j h = ground (arith, h)

pub NoDup-front :
    (xs : List Slot) (i : Slot) (ys : List Slot) → NoDup (xs ++ i ∷ ys) → NoDup (i ∷ (xs ++ ys))
NoDup-front [] i ys h = h
NoDup-front (x ∷ xs) i ys (far, d) =
    let (apart, rest) = NoDup-front xs i ys d in
    let (other, far') = All-front (λ j. (x == j) ≡ false) xs i ys far in
    ((flip x i other, apart), (far', rest))

pub NoDup-middle :
    (xs : List Slot) (i : Slot) (ys : List Slot) → NoDup (i ∷ (xs ++ ys)) → NoDup (xs ++ i ∷ ys)
NoDup-middle [] i ys h = h
NoDup-middle (x ∷ xs) i ys ((other, apart), (far, d)) = (
  All-middle (λ j. (x == j) ≡ false) xs i ys (flip i x other, far),
  NoDup-middle xs i ys (apart, d),
)

pub NoDup-left : (xs ys : List Slot) → NoDup (xs ++ ys) → NoDup xs
NoDup-left [] ys d = tt
NoDup-left (x ∷ xs) ys d = (All-left (λ j. (x == j) ≡ false) xs ys d.0, NoDup-left xs ys d.1)

-- The same keys and values keep what the map says.
pub kept-HasKey :
    (a b : Nodes) (i : Slot) (k : BlockKey)
    → payload (b i) ≡ payload (a i)
    → HasKey a i k
    → HasKey b i k
kept-HasKey a b i k e (v, h) = (v, e ∙ h)

pub kept-Mapped :
    (a b : Nodes) (xs ys : List Slot) (m : SlotMap)
    → ((i : Slot) (k : BlockKey) → HasKey a i k → HasKey b i k)
    → ((i : Slot) → In i xs → In i ys)
    → Mapped a xs m
    → Mapped b ys m
kept-Mapped a b xs ys [] e f h = tt
kept-Mapped a b xs ys ((k, i) ∷ m) e f h =
    ((f i h.0.0, e i k h.0.1), kept-Mapped a b xs ys m e f h.1)

pub kept-Listed :
    (a b : Nodes) (m : SlotMap) (xs : List Slot)
    → ((i : Slot) (k : BlockKey) → HasKey a i k → HasKey b i k)
    → Listed a m xs
    → Listed b m xs
kept-Listed a b m [] e h = tt
kept-Listed a b m (i ∷ xs) e ((k, has, at), h) = ((k, e i k has, at), kept-Listed a b m xs e h)

-- A slot that is found is in use.
pub found-In :
    (a : Nodes) (order : List Slot) (m : SlotMap) (k : BlockKey) (i : Slot)
    → Mapped a order m
    → slot_of m k ≡ some i
    → In i order × HasKey a i k
unfolding slot_of
found-In a order [] k i h e = absurd cc
found-In a order ((j, x) ∷ m) k i h e = elim (Bool-cases (same_key j k)) [
  | inl same ↦
      let at : x ≡ i = ground (arith, e, same) in
      subst (λ y. In y order × HasKey a y k) at
        (subst (λ l. In x order × HasKey a x l) (same_key-eq j k same) h.0)
  | inr other ↦ found-In a order m k i h.1 (ground (arith, e, other))
]
