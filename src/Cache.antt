-- ===== src/Cache.antt =====
-- src/cache/mod.rs: the LRU block cache, used by one thread: slots that hold nodes of a doubly linked
-- list in order of use, and a map from keys to slots. The vector of slots is its length and its
-- contents by index.
use flash_store.Prelude.{
  ℕ, zero, suc, ◌+◌, Bool, List, [], ◌∷◌, Option, none, some, length, true, false, leb, ◌==◌, ◌&&◌,
  if◌then◌else◌,
}
use flash_store.Bytes.{Bytes}
pub mod Chain
pub mod Links
pub mod Contents
pub mod Valid
pub mod Touch
pub mod Forgetting
pub mod Dropping
pub mod Inserting
pub mod Runs
pub mod Stored
pub mod Held
pub mod Interface

abbrev pub Slot : Type 0
Slot = ℕ

-- `(file_number, block_offset)`
abbrev pub BlockKey : Type 0
BlockKey = ℕ × ℕ

abbrev pub same_key : BlockKey → BlockKey → Bool
same_key k j = (k.0 == j.0) && (k.1 == j.1)

pub record LruNode : Type 0 where
  pub key : BlockKey
  pub value : Bytes
  pub prev : Option Slot
  pub next : Option Slot

abbrev pub Nodes : Type 0
Nodes = Slot → Option LruNode

-- `HashMap` from keys to slots.
abbrev pub SlotMap : Type 0
SlotMap = List (BlockKey × Slot)

unfoldable pub slot_of : SlotMap → BlockKey → Option Slot
slot_of [] k = none
slot_of ((j, i) ∷ m) k = if same_key j k then some i else slot_of m k

unfoldable pub without_key : SlotMap → BlockKey → SlotMap
without_key [] k = []
without_key ((j, i) ∷ m) k =
    let rest = without_key m k in if same_key j k then rest else (j, i) ∷ rest

pub record LruInner : Type 0 where
  pub nodes : Nodes
  pub nodes_len : ℕ
  pub free_indices : List Slot
  pub map : SlotMap
  -- The most and the least recently used.
  pub head : Option Slot
  pub tail : Option Slot
  pub capacity : ℕ

abbrev pub new : ℕ → LruInner
new capacity = record {
  nodes = λ i. none;
  nodes_len = 0;
  free_indices = [];
  map = [];
  head = none;
  tail = none;
  capacity = capacity;
}

-- `if let Some(node) = self.nodes[i].as_mut() { … }`
unfoldable pub modify : Nodes → Slot → (LruNode → LruNode) → Nodes
modify nodes i f j =
    if i == j then elim (nodes j) [ none ↦ none | some n ↦ some (f n) ] else nodes j

abbrev pub set_slot : Nodes → Slot → Option LruNode → Nodes
set_slot nodes i o j = if i == j then o else nodes j

abbrev pub set_prev : Option Slot → LruNode → LruNode
set_prev p n = record n { prev = p }

abbrev pub set_next : Option Slot → LruNode → LruNode
set_next p n = record n { next = p }

abbrev pub unlinked : LruNode → LruNode
unlinked n = record n { prev = none; next = none }

-- The two ends of the gap that a node leaves.
abbrev pub link_back : LruInner → Option Slot → Option Slot → LruInner
link_back s none next = record s { head = next }
link_back s (some p) next = record s { nodes = modify s.nodes p (set_next next) }

abbrev pub link_forth : LruInner → Option Slot → Option Slot → LruInner
link_forth s prev none = record s { tail = prev }
link_forth s prev (some n) = record s { nodes = modify s.nodes n (set_prev prev) }

-- The neighbours are linked to each other, and the node to none.
abbrev pub cut : LruInner → Slot → Option Slot → Option Slot → LruInner
cut s i prev next =
    let t = link_forth (link_back s prev next) prev next in
    record t { nodes = modify t.nodes i unlinked }

abbrev pub unlink : LruInner → Slot → Option LruNode → LruInner
unlink s i none = s
unlink s i (some node) = cut s i node.prev node.next

abbrev pub detach : LruInner → Slot → LruInner
detach s i = unlink s i (s.nodes i)

-- What `attach_head` does to the old head.
abbrev pub push_down : LruInner → Slot → Option Slot → LruInner
push_down s i none = record s { tail = some i }
push_down s i (some old_head) = record s { nodes = modify s.nodes old_head (set_prev (some i)) }

unfoldable pub attach_head : LruInner → Slot → LruInner
attach_head s i =
    let t = record s { nodes = modify s.nodes i (λ n. record n { prev = none; next = s.head }) } in
    record (push_down t i s.head) { head = some i }

abbrev pub value_at : Option LruNode → Option Bytes
value_at none = none
value_at (some n) = some n.value

abbrev pub is_head : Option Slot → Slot → Bool
is_head none i = false
is_head (some h) i = h == i

abbrev pub get_at : LruInner → Option Slot → Option Bytes × LruInner
get_at s none = (none, s)
get_at s (some i) =
    let t = if is_head s.head i then s else attach_head (detach s i) i in (value_at (t.nodes i), t)

unfoldable pub get : LruInner → BlockKey → Option Bytes × LruInner
get s k = get_at s (slot_of s.map k)

-- Dropping the least recently used node.
abbrev pub take_slot : LruInner → Slot → Option LruNode → LruInner
take_slot s i none = s
take_slot s i (some n) = record s {
  nodes = set_slot s.nodes i none;
  map = without_key s.map n.key;
  free_indices = i ∷ s.free_indices;
}

abbrev pub evict_at : LruInner → Option Slot → LruInner
evict_at s none = s
evict_at s (some i) = let t = detach s i in take_slot t i (t.nodes i)

abbrev pub evict : LruInner → LruInner
evict s = if leb s.capacity (length s.map) then evict_at s s.tail else s

-- A slot for a new node: the last freed one, or a new one at the end.
abbrev pub place : LruInner → LruNode → List Slot → Slot × LruInner
place s n [] = (
  s.nodes_len,
  record s { nodes = set_slot s.nodes s.nodes_len (some n); nodes_len = s.nodes_len + 1 },
)
place s n (i ∷ free) = (i, record s { nodes = set_slot s.nodes i (some n); free_indices = free })

abbrev pub add_node : LruInner → LruNode → LruInner
add_node s n =
    let (i, t) = place s n s.free_indices in
    let u = attach_head t i in record u { map = (n.key, i) ∷ without_key u.map n.key }

abbrev pub insert_at : LruInner → BlockKey → Bytes → Option Slot → LruInner
insert_at s k v (some i) =
    let t = record s { nodes = modify s.nodes i (λ n. record n { value = v }) } in
    attach_head (detach t i) i
insert_at s k v none = add_node (evict s) (record { key = k; value = v; prev = none; next = none })

unfoldable pub insert : LruInner → BlockKey → Bytes → LruInner
insert s k v = if s.capacity == 0 then s else insert_at s k v (slot_of s.map k)

abbrev pub remove_at : LruInner → BlockKey → Option Slot → Option Bytes × LruInner
remove_at s k none = (none, s)
remove_at s k (some i) =
    let t = detach (record s { map = without_key s.map k }) i in
    (
      value_at (t.nodes i),
      record t { nodes = set_slot t.nodes i none; free_indices = i ∷ t.free_indices },
    )

unfoldable pub remove : LruInner → BlockKey → Option Bytes × LruInner
remove s k = remove_at s k (slot_of s.map k)

abbrev pub clear : LruInner → LruInner
clear s = new s.capacity

abbrev pub contains_key : LruInner → BlockKey → Bool
contains_key s k = elim (slot_of s.map k) [ none ↦ false | some i ↦ true ]
