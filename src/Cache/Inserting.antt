-- ===== src/Cache/Inserting.antt =====
-- `insert` of src/cache/mod.rs keeps the invariant.
use flash_store.Prelude.{
  ℕ, ◌<◌, ◌≡◌, inl, inr, refl, ap, sym, ◌∙◌, Bool, false, List, [], ◌∷◌, ◌++◌, Option, none, some,
  ◌==◌, if◌then◌else◌, length, arith, All, All-left, In, Bool-cases, subst, if_keeps,
}
use flash_store.Bytes.{Bytes}
use flash_store.Cache.{
  Slot, BlockKey, LruNode, Nodes, LruInner, SlotMap, same_key, slot_of, without_key, attach_head,
  set_slot, modify,
}
use flash_store.Cache.Chain.{Apart, NoDup, IsChain, Same-IsChain}
use flash_store.Cache.Contents.{
  payload, HasKey, Mapped, Listed, attach_head-payload, length-without_key, slot_of-without_key,
  same_key-eq, same_key_refl,
}
use flash_store.Cache.Forgetting.{set_slot-Same}
use flash_store.Cache.Dropping.{node_key}
use flash_store.Cache.Links.{Lists, attach_head-Lists}
use flash_store.Cache.Touch.{payload-some}
use flash_store.Cache.Valid.{Valid, kept-Mapped, kept-Listed}

abbrev pub set_value : Bytes → LruNode → LruNode
set_value v n = record n { value = v }

value-IsChain :
    (a : Nodes) (i : Slot) (v : Bytes) (p : Option Slot) (xs : List Slot) (n : Option Slot)
    → IsChain a p xs n
    → IsChain (modify a i (set_value v)) p xs n
unfolding modify
value-IsChain a i v p [] n c = tt
value-IsChain a i v p (x ∷ xs) n ((node, at, q, r), c) = elim (Bool-cases (i == x)) [
  | inl e ↦ ((set_value v node, rw (e, at) refl, q, r), value-IsChain a i v (some x) xs n c)
  | inr e ↦ ((node, rw e at, q, r), value-IsChain a i v (some x) xs n c)
]

value-HasKey :
    (a : Nodes) (i : Slot) (v : Bytes) (x : Slot) (k : BlockKey)
    → HasKey a x k
    → HasKey (modify a i (set_value v)) x k
unfolding modify
value-HasKey a i v x k (w, h) = elim (Bool-cases (i == x)) [
  | inl e ↦
      let (node, at) = payload-some (a x) k w h in
      let key = node_key (a x) node k w at h in (v, rw e (rw at (ap (λ y. some (y, v)) key)))
  | inr e ↦ (w, rw e h)
]

pub value-Valid :
    (s : LruInner) (order : List Slot) (i : Slot) (v : Bytes)
    → Valid order s
    → Valid order (record s { nodes = modify s.nodes i (set_value v) })
value-Valid s order i v h =
    let has = value-HasKey s.nodes i v in
    record {
      lists = record {
        chain = value-IsChain s.nodes i v none order none h.lists.chain;
        head = h.lists.head;
        tail = h.lists.tail;
        nodup = h.lists.nodup;
      };
      nodup = h.nodup;
      below = h.below;
      mapped = kept-Mapped s.nodes _ order order s.map has (λ x used. used) h.mapped;
      listed = kept-Listed s.nodes _ s.map order has h.listed;
      bounded = h.bounded;
    }

In-Apart : (i x : Slot) (is : List Slot) → Apart i is → In x is → (i == x) ≡ false
In-Apart i x [] far h = elim h [ ]
In-Apart i x (y ∷ is) far (inl e) = ap (λ z. i == z) e ∙ far.0
In-Apart i x (y ∷ is) far (inr h) = In-Apart i x is far.1 h

new-HasKey :
    (a b : Nodes) (i : Slot) (n : LruNode) (x : Slot) (k : BlockKey)
    → ((j : Slot) → payload (b j) ≡ payload (set_slot a i (some n) j))
    → (i == x) ≡ false
    → HasKey a x k
    → HasKey b x k
new-HasKey a b i n x k e far (v, h) =
    (v, e x ∙ ap (λ (c : Bool). payload (if c then some n else a x)) far ∙ h)

new-Mapped :
    (a b : Nodes) (i : Slot) (n : LruNode) (order : List Slot) (m : SlotMap)
    → ((j : Slot) → payload (b j) ≡ payload (set_slot a i (some n) j))
    → Apart i order
    → Mapped a order m
    → Mapped b (i ∷ order) (without_key m n.key)
unfolding without_key
new-Mapped a b i n order [] e far h = tt
new-Mapped a b i n order ((j, x) ∷ m) e far h =
    let rest = new-Mapped a b i n order m e far h.1 in
    if_keeps (Mapped b (i ∷ order)) (same_key j n.key) _ _ rest
      ((inr h.0.0, new-HasKey a b i n x j e (In-Apart i x order far h.0.0) h.0.1), rest)

new-Listed :
    (a b : Nodes) (i : Slot) (n : LruNode) (m : SlotMap) (is : List Slot)
    → ((j : Slot) → payload (b j) ≡ payload (set_slot a i (some n) j))
    → slot_of m n.key ≡ none
    → Apart i is
    → Listed a m is
    → Listed b ((n.key, i) ∷ without_key m n.key) is
unfolding slot_of
new-Listed a b i n m [] e absent far h = tt
new-Listed a b i n m (x ∷ is) e absent far ((j, has, found), h) =
    let other : same_key n.key j ≡ false = elim (Bool-cases (same_key n.key j)) [
      | inr o ↦ o
      | inl same ↦
          let at : none ≡ some x = sym absent ∙ ap (slot_of m) (same_key-eq n.key j same) ∙ found in
          absurd cc
    ] in
    let swapped : same_key j n.key ≡ false = ground (arith, other) in
    (
      (
        j,
        new-HasKey a b i n x j e far.0 has,
        ap (λ (c : Bool). if c then some i else slot_of (without_key m n.key) j) other
            ∙ slot_of-without_key m n.key j
            ∙ ap (λ (c : Bool). if c then none else slot_of m j) swapped
            ∙ found,
      ),
      new-Listed a b i n m is e absent far.1 h,
    )

-- A state with a node in a slot that was not in use.
abbrev with_node : LruInner → Slot → LruNode → ℕ → List Slot → LruInner
with_node s i n len free = record s {
  nodes = set_slot s.nodes i (some n);
  nodes_len = len;
  free_indices = free;
}

abbrev pub headed : LruInner → Slot → LruNode → LruInner
headed t i n = let u = attach_head t i in record u { map = (n.key, i) ∷ without_key u.map n.key }

pub fresh-Valid :
    (s : LruInner) (order : List Slot) (i : Slot) (n : LruNode) (len : ℕ) (free : List Slot)
    → slot_of s.map n.key ≡ none
    → length s.map < s.capacity
    → NoDup (i ∷ (order ++ free))
    → All (λ j. j < len) (i ∷ (order ++ free))
    → Valid order s
    → Valid (i ∷ order) (headed (with_node s i n len free) i n)
unfolding slot_of
fresh-Valid s order i n len free absent room d below v =
    let t = with_node s i n len free in
    let apart = All-left (λ j. (i == j) ≡ false) order free d.0 in
    let here : t.nodes i ≡ some n = ground arith in
    let lists_t : Lists t order = record {
      chain =
          Same-IsChain s.nodes t.nodes none order none
            (set_slot-Same s.nodes i (some n) order apart) v.lists.chain;
      head = v.lists.head;
      tail = v.lists.tail;
      nodup = v.lists.nodup;
    } in
    let (l, (len', fr, map, cap)) = attach_head-Lists t i order n lists_t here apart in
    let u = attach_head t i in
    let same = attach_head-payload t i in
    let at_i : payload (u.nodes i) ≡ some (n.key, n.value) = same i ∙ ap payload here in
    record {
      lists = record { chain = l.chain; head = l.head; tail = l.tail; nodup = l.nodup };
      nodup = subst (λ f. NoDup (i ∷ (order ++ f))) (sym fr) d;
      below =
          subst (λ f. All (λ j. j < u.nodes_len) (i ∷ (order ++ f))) (sym fr)
            (subst (λ m. All (λ j. j < m) (i ∷ (order ++ free))) (sym len') below);
      mapped = (
        (inl refl, (n.value, at_i)),
        subst (λ m. Mapped u.nodes (i ∷ order) (without_key m n.key)) (sym map)
            (new-Mapped s.nodes u.nodes i n order s.map same apart v.mapped),
      );
      listed = (
        (
          n.key,
          (n.value, at_i),
          ap (λ (c : Bool). if c then some i else slot_of (without_key u.map n.key) n.key)
              (same_key_refl n.key),
        ),
        subst (λ m. Listed u.nodes ((n.key, i) ∷ without_key m n.key) order) (sym map)
            (new-Listed s.nodes u.nodes i n s.map order same absent apart v.listed),
      );
      bounded = omega (arith, length-without_key u.map n.key, ap length map, cap, room);
    }
