-- ===== src/Cache/Chain.antt =====
-- The doubly linked list in the slots of src/cache/mod.rs.
use flash_store.Prelude.{
  ◌≡◌, refl, sym, ◌∙◌, false, List, [], ◌∷◌, ◌++◌, Option, none, some, ◌==◌, arith, All, All-left,
  All-right,
}
use flash_store.Cache.{Slot, LruNode, Nodes, modify, set_prev, set_next}

abbrev pub first : List Slot → Option Slot → Option Slot
first [] after = after
first (i ∷ is) after = some i

abbrev pub last : Option Slot → List Slot → Option Slot
last before [] = before
last before (i ∷ is) = last (some i) is

abbrev pub IsNode : Nodes → Slot → Option Slot → Option Slot → Type 0
IsNode nodes i p n = (node : LruNode) × (nodes i ≡ some node) × (node.prev ≡ p) × (node.next ≡ n)

-- The slots in a list are linked, between two ends.
abbrev pub IsChain : Nodes → Option Slot → List Slot → Option Slot → Type 0
IsChain nodes before [] after = Unit
IsChain nodes before (i ∷ is) after =
    IsNode nodes i before (first is after) × IsChain nodes (some i) is after

abbrev pub Apart : Slot → List Slot → Type 0
Apart i is = All (λ j. (i == j) ≡ false) is

abbrev pub NoDup : List Slot → Type 0
NoDup [] = Unit
NoDup (i ∷ is) = Apart i is × NoDup is

-- Nodes that are the same at the slots of a chain form the same chain.
abbrev pub Same : Nodes → Nodes → List Slot → Type 0
Same a b is = All (λ i. a i ≡ b i) is

pub Same-IsChain :
    (a b : Nodes) (p : Option Slot) (is : List Slot) (n : Option Slot)
    → Same a b is
    → IsChain a p is n
    → IsChain b p is n
Same-IsChain a b p [] n h c = tt
Same-IsChain a b p (i ∷ is) n h ((node, at, q, r), c) =
    ((node, sym h.0 ∙ at, q, r), Same-IsChain a b (some i) is n h.1 c)

pub modify-Same :
    (a : Nodes) (i : Slot) (f : LruNode → LruNode) (is : List Slot)
    → Apart i is
    → Same a (modify a i f) is
unfolding modify
modify-Same a i f [] h = tt
modify-Same a i f (j ∷ is) h = (rw h.0 refl, modify-Same a i f is h.1)

pub split-IsChain :
    (a : Nodes) (p : Option Slot) (xs : List Slot) (i : Slot) (ys : List Slot) (n : Option Slot)
    → IsChain a p (xs ++ i ∷ ys) n
    → IsChain a p xs (some i) × IsNode a i (last p xs) (first ys n) × IsChain a (some i) ys n
split-IsChain a p [] i ys n (node, c) = (tt, node, c)
split-IsChain a p (x ∷ []) i ys n (node, c) = ((node, tt), c.0, c.1)
split-IsChain a p (x ∷ y ∷ xs) i ys n (node, c) =
    let (before, at, behind) = split-IsChain a (some x) (y ∷ xs) i ys n c in
    ((node, before), at, behind)

pub join-IsChain :
    (a : Nodes) (p : Option Slot) (xs ys : List Slot) (n : Option Slot)
    → IsChain a p xs (first ys n)
    → IsChain a (last p xs) ys n
    → IsChain a p (xs ++ ys) n
join-IsChain a p [] ys n c d = d
join-IsChain a p (x ∷ []) ys n (node, c) d = (node, d)
join-IsChain a p (x ∷ y ∷ xs) ys n (node, c) d = (node, join-IsChain a (some x) (y ∷ xs) ys n c d)

-- A change at a slot, if there is one.
abbrev pub modify_opt : Nodes → Option Slot → (LruNode → LruNode) → Nodes
modify_opt a none f = a
modify_opt a (some i) f = modify a i f

pub modify-at :
    (a : Nodes) (i : Slot) (f : LruNode → LruNode) (node : LruNode)
    → a i ≡ some node
    → modify a i f i ≡ some (f node)
unfolding modify
modify-at a i f node h = ground (arith, h)

modify_apart :
    (a : Nodes) (i x : Slot) (f : LruNode → LruNode) → (x == i) ≡ false → modify a i f x ≡ a x
unfolding modify
modify_apart a i x f h = ground (arith, h)

modify_last-Apart :
    (a : Nodes) (y : Slot) (xs : List Slot) (x : Slot) (f : LruNode → LruNode)
    → Apart x (y ∷ xs)
    → modify_opt a (last (some y) xs) f x ≡ a x
modify_last-Apart a y [] x f h = modify_apart a y x f h.0
modify_last-Apart a y (z ∷ xs) x f h = modify_last-Apart a z xs x f h.1

-- The node behind a chain is changed.
pub relink_next :
    (a : Nodes) (p : Option Slot) (xs : List Slot) (m n : Option Slot)
    → NoDup xs
    → IsChain a p xs m
    → IsChain (modify_opt a (last none xs) (set_next n)) p xs n
relink_next a p [] m n d c = tt
relink_next a p (x ∷ []) m n d ((node, at, q, r), c) =
    ((set_next n node, modify-at a x (set_next n) node at, q, refl), tt)
relink_next a p (x ∷ y ∷ xs) m n d ((node, at, q, r), c) = (
  (node, modify_last-Apart a y xs x (set_next n) d.0 ∙ at, q, r),
  relink_next a (some x) (y ∷ xs) m n d.1 c,
)

-- The node before a chain is changed.
pub relink_prev :
    (a : Nodes) (p q : Option Slot) (xs : List Slot) (n : Option Slot)
    → NoDup xs
    → IsChain a p xs n
    → IsChain (modify_opt a (first xs none) (set_prev q)) q xs n
relink_prev a p q [] n d c = tt
relink_prev a p q (x ∷ xs) n d ((node, at, _, r), c) = (
  (set_prev q node, modify-at a x (set_prev q) node at, refl, r),
  Same-IsChain a _ (some x) xs n (modify-Same a x (set_prev q) xs d.0) c,
)

-- Slots apart from a list are apart from its ends.
pub Same-trans : (a b c : Nodes) (is : List Slot) → Same a b is → Same b c is → Same a c is
Same-trans a b c [] h k = tt
Same-trans a b c (i ∷ is) h k = (h.0 ∙ k.0, Same-trans a b c is h.1 k.1)

-- No slot is in both lists.
abbrev pub Disjoint : List Slot → List Slot → Type 0
Disjoint xs ys = All (λ i. Apart i ys) xs

Apart-sym : (x : Slot) (ys : List Slot) → Apart x ys → All (λ i. (i == x) ≡ false) ys
Apart-sym x [] h = tt
Apart-sym x (y ∷ ys) h = (ground (arith, h.0), Apart-sym x ys h.1)

pub refl_Same : (a : Nodes) (is : List Slot) → Same a a is
refl_Same a [] = tt
refl_Same a (i ∷ is) = (refl, refl_Same a is)

pub modify_last-Same :
    (a : Nodes) (xs ys : List Slot) (f : LruNode → LruNode)
    → Disjoint xs ys
    → Same a (modify_opt a (last none xs) f) ys
modify_last-Same a [] ys f h = refl_Same a ys
modify_last-Same a (x ∷ []) ys f h = modify-Same a x f ys h.0
modify_last-Same a (x ∷ y ∷ xs) ys f h = modify_last-Same a (y ∷ xs) ys f h.1

pub modify_first-Same :
    (a : Nodes) (xs ys : List Slot) (f : LruNode → LruNode)
    → Disjoint xs ys
    → Same a (modify_opt a (first xs none) f) ys
modify_first-Same a [] ys f h = refl_Same a ys
modify_first-Same a (x ∷ xs) ys f h = modify-Same a x f ys h.0

pub Disjoint-sym : (xs ys : List Slot) → Disjoint xs ys → Disjoint ys xs
Disjoint-sym xs [] h = tt
Disjoint-sym xs (y ∷ ys) h = (to xs h, Disjoint-sym xs ys (from xs h))
  where
    to : (xs : List Slot) → Disjoint xs (y ∷ ys) → Apart y xs
    to [] h = tt
    to (x ∷ xs) h = (ground (arith, h.0.0), to xs h.1)

    from : (xs : List Slot) → Disjoint xs (y ∷ ys) → Disjoint xs ys
    from [] h = tt
    from (x ∷ xs) h = (h.0.1, from xs h.1)

-- The parts of a list without repetitions.
pub split-NoDup :
    (xs : List Slot) (i : Slot) (ys : List Slot)
    → NoDup (xs ++ i ∷ ys)
    → NoDup xs × NoDup ys × Disjoint xs ys × Apart i xs × Apart i ys
split-NoDup [] i ys d = (tt, d.1, tt, tt, d.0)
split-NoDup (x ∷ xs) i ys (far, d) =
    let (dx, dy, dis, ix, iy) = split-NoDup xs i ys d in
    (
      (All-left (λ j. (x == j) ≡ false) xs (i ∷ ys) far, dx),
      dy,
      ((All-right (λ j. (x == j) ≡ false) xs (i ∷ ys) far).1, dis),
      (ground (arith, (All-right (λ j. (x == j) ≡ false) xs (i ∷ ys) far).0), ix),
      iy,
    )
