-- ===== src/Cache/Contents.antt =====
-- What the slots of src/cache/mod.rs hold, apart from their links.
use flash_store.Prelude.{
  ◌≤◌, ◌<◌, ◌≡◌, inl, inr, refl, ◌∙◌, true, List, [], ◌∷◌, Option, none, some, ◌==◌, if◌then◌else◌,
  length, arith, All, In, Bool-cases,
}
use flash_store.Bytes.{Bytes}
use flash_store.Cache.{
  Slot, BlockKey, LruNode, Nodes, LruInner, SlotMap, same_key, slot_of, without_key, modify,
  set_prev, set_next, unlinked, link_back, link_forth, unlink, detach, push_down, attach_head,
}

abbrev pub payload : Option LruNode → Option (BlockKey × Bytes)
payload none = none
payload (some n) = some (n.key, n.value)

changed :
    (o : Option LruNode) (f : LruNode → LruNode)
    → ((n : LruNode) → payload (some (f n)) ≡ payload (some n))
    → payload (elim o [ none ↦ none | some n ↦ some (f n) ]) ≡ payload o
changed none f h = refl
changed (some n) f h = h n

modify-payload :
    (a : Nodes) (i : Slot) (f : LruNode → LruNode) (j : Slot)
    → ((n : LruNode) → payload (some (f n)) ≡ payload (some n))
    → payload (modify a i f j) ≡ payload (a j)
unfolding modify
modify-payload a i f j h = elim (Bool-cases (i == j)) [
  | inl e ↦ rw e (changed (a j) f h)
  | inr e ↦ rw e refl
]

link_back-payload :
    (s : LruInner) (p n : Option Slot) (j : Slot)
    → payload ((link_back s p n).nodes j) ≡ payload (s.nodes j)
link_back-payload s none n j = refl
link_back-payload s (some p) n j = modify-payload s.nodes p (set_next n) j (λ x. refl)

link_forth-payload :
    (s : LruInner) (p n : Option Slot) (j : Slot)
    → payload ((link_forth s p n).nodes j) ≡ payload (s.nodes j)
link_forth-payload s p none j = refl
link_forth-payload s p (some n) j = modify-payload s.nodes n (set_prev p) j (λ x. refl)

unlink-payload :
    (s : LruInner) (i : Slot) (o : Option LruNode) (j : Slot)
    → payload ((unlink s i o).nodes j) ≡ payload (s.nodes j)
unlink-payload s i none j = refl
unlink-payload s i (some n) j =
    let b = link_back s n.prev n.next in
    modify-payload (link_forth b n.prev n.next).nodes i unlinked j (λ x. refl)
    ∙ link_forth-payload b n.prev n.next j
    ∙ link_back-payload s n.prev n.next j

-- Links leave keys and values as they are.
pub detach-payload :
    (s : LruInner) (i j : Slot) → payload ((detach s i).nodes j) ≡ payload (s.nodes j)
detach-payload s i j = unlink-payload s i (s.nodes i) j

push_down-payload :
    (s : LruInner) (i : Slot) (h : Option Slot) (j : Slot)
    → payload ((push_down s i h).nodes j) ≡ payload (s.nodes j)
push_down-payload s i none j = refl
push_down-payload s i (some h) j = modify-payload s.nodes h (set_prev (some i)) j (λ x. refl)

pub attach_head-payload :
    (s : LruInner) (i j : Slot) → payload ((attach_head s i).nodes j) ≡ payload (s.nodes j)
unfolding attach_head
attach_head-payload s i j =
    let f = λ (n : LruNode). record n { prev = none; next = s.head } in
    push_down-payload (record s { nodes = modify s.nodes i f }) i s.head j
    ∙ modify-payload s.nodes i f j (λ x. refl)

-- The slot holds the key.
abbrev pub HasKey : Nodes → Slot → BlockKey → Type 0
HasKey a i k = (v : Bytes) × (payload (a i) ≡ some (k, v))

-- Each key of the map has a slot of the list, and the slot holds the key.
abbrev pub Mapped : Nodes → List Slot → SlotMap → Type 0
Mapped a order m = All (λ (p : BlockKey × Slot). In p.1 order × HasKey a p.1 p.0) m

-- The map has the key of each slot of the list.
abbrev pub Listed : Nodes → SlotMap → List Slot → Type 0
Listed a m order = All (λ i. (k : BlockKey) × HasKey a i k × (slot_of m k ≡ some i)) order

pub same_key_refl : (k : BlockKey) → same_key k k ≡ true
same_key_refl k = ground arith

pub same_key-eq : (k j : BlockKey) → same_key k j ≡ true → k ≡ j
same_key-eq k j h = ground (arith, h)

pub length-without_key : (m : SlotMap) (k : BlockKey) → length (without_key m k) ≤ length m
unfolding without_key
length-without_key [] k = omega arith
length-without_key ((j, i) ∷ m) k = ground (arith, length-without_key m k)

-- A key that is there makes the map shorter.
pub without_key_shorter :
    (m : SlotMap) (k : BlockKey) (i : Slot)
    → slot_of m k ≡ some i
    → length (without_key m k) < length m
unfolding without_key slot_of
without_key_shorter [] k i h = absurd cc
without_key_shorter ((j, x) ∷ m) k i h =
    ground (arith, length-without_key m k, without_key_shorter m k i, h)

pub slot_of-without_key :
    (m : SlotMap) (k j : BlockKey)
    → slot_of (without_key m k) j ≡ (if same_key j k then none else slot_of m j)
unfolding without_key slot_of
slot_of-without_key [] k j = ground arith
slot_of-without_key ((l, x) ∷ m) k j = ground (arith, slot_of-without_key m k j)
