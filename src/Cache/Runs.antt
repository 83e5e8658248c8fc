-- ===== src/Cache/Runs.antt =====
-- Runs of the calls of src/cache/mod.rs.
use flash_store.Prelude.{
  ℕ, ◌+◌, ◌≤◌, ◌<◌, ◌≡◌, inl, inr, refl, ap, ◌∙◌, false, List, [], ◌∷◌, ◌++◌, Option, none, some,
  ◌==◌, leb, length, arith, All, All-imp, Bool-cases, subst, if_keeps,
}
use flash_store.Bytes.{Bytes}
use flash_store.Cache
use flash_store.Cache.{
  Slot, BlockKey, LruNode, LruInner, SlotMap, same_key, slot_of, without_key, detach, unlink,
  attach_head, modify, evict, evict_at, take_slot, place, add_node, insert, insert_at, get, get_at,
  is_head, value_at, remove, remove_at, clear,
}
use flash_store.Cache.Chain.{Apart, NoDup}
use flash_store.Cache.Contents.{slot_of-without_key}
use flash_store.Cache.Dropping.{evict-IsValid, remove-IsValid}
use flash_store.Cache.Inserting.{fresh-Valid, value-Valid, set_value, headed}
use flash_store.Cache.Links.{SameRest, link_rest, push_down_facts}
use flash_store.Cache.Touch.{IsValid, touch-IsValid, get-IsValid}
use flash_store.Cache.Valid.{Valid, All-front, NoDup-front}

pub unlink_rest : (s : LruInner) (i : Slot) (o : Option LruNode) → SameRest s (unlink s i o)
unlink_rest s i none = (refl, refl, refl, refl)
unlink_rest s i (some n) = link_rest s n.prev n.prev n.next n.next

place-Valid :
    (s : LruInner) (order : List Slot) (n : LruNode) (free : List Slot)
    → s.free_indices ≡ free
    → slot_of s.map n.key ≡ none
    → length s.map < s.capacity
    → Valid order s
    → IsValid (headed (place s n free).1 (place s n free).0 n)
place-Valid s order n [] e absent room v =
    let len = s.nodes_len in
    let all = order ++ s.free_indices in
    let apart : Apart len all =
      All-imp (λ j. j < len) (λ j. (len == j) ≡ false) (λ j lt. ground (arith, lt)) all v.below in
    let below : All (λ j. j < len + 1) all =
      All-imp (λ j. j < len) (λ j. j < len + 1) (λ j lt. omega arith) all v.below in
    (
      len ∷ order,
      fresh-Valid s order len n (len + 1) s.free_indices absent room (apart, v.nodup)
          (omega arith, below) v,
    )
place-Valid s order n (i ∷ free) e absent room v = (
  i ∷ order,
  fresh-Valid s order i n s.nodes_len free absent room
      (NoDup-front order i free (subst (λ f. NoDup (order ++ f)) e v.nodup))
      (All-front (λ j. j < s.nodes_len) order i free
        (subst (λ f. All (λ j. j < s.nodes_len) (order ++ f)) e v.below))
      v,
)

take_slot_absent :
    (s : LruInner) (i : Slot) (o : Option LruNode) (k : BlockKey)
    → slot_of s.map k ≡ none
    → slot_of (take_slot s i o).map k ≡ none
take_slot_absent s i none k h = h
take_slot_absent s i (some n) k h =
    slot_of-without_key s.map n.key k
    ∙ if_keeps (λ (o : Option Slot). o ≡ none) (same_key k n.key) none _ refl h

evict_at_absent :
    (s : LruInner) (t : Option Slot) (k : BlockKey)
    → slot_of s.map k ≡ none
    → slot_of (evict_at s t).map k ≡ none
evict_at_absent s none k h = h
evict_at_absent s (some i) k h =
    take_slot_absent (detach s i) i ((detach s i).nodes i) k
      (ap (λ m. slot_of m k) (unlink_rest s i (s.nodes i)).2 ∙ h)

insert_at-IsValid :
    (s : LruInner) (k : BlockKey) (v : Bytes) (o : Option Slot)
    → slot_of s.map k ≡ o
    → 0 < s.capacity
    → IsValid s
    → IsValid (insert_at s k v o)
insert_at-IsValid s k v (some i) e p (order, h) =
    touch-IsValid (record s { nodes = modify s.nodes i (set_value v) }) k i e
      (order, value-Valid s order i v h)
insert_at-IsValid s k v none e p valid =
    let ((order, h), room) = evict-IsValid s p valid in
    let absent =
      if_keeps (λ (x : LruInner). slot_of x.map k ≡ none) (leb s.capacity (length s.map)) _ s
        (evict_at_absent s s.tail k e) e in
    place-Valid (evict s) order (record { key = k; value = v; prev = none; next = none })
      (evict s).free_indices refl absent room h

pub insert-IsValid : (s : LruInner) (k : BlockKey) (v : Bytes) → IsValid s → IsValid (insert s k v)
unfolding insert
insert-IsValid s k v valid = elim (Bool-cases (s.capacity == 0)) [
  | inl e ↦ rw e valid
  | inr e ↦ rw e (insert_at-IsValid s k v (slot_of s.map k) refl (ground (arith, e)) valid)
]

pub new-IsValid : (capacity : ℕ) → IsValid (Cache.new capacity)
new-IsValid capacity = (
  [],
  record {
    lists = record { chain = tt; head = refl; tail = refl; nodup = tt };
    nodup = tt;
    below = tt;
    mapped = tt;
    listed = tt;
    bounded = omega arith;
  },
)

pub attach_head_rest : (s : LruInner) (i : Slot) → SameRest s (attach_head s i)
unfolding attach_head
attach_head_rest s i =
    let t = record s { nodes = modify s.nodes i (λ n. record n { prev = none; next = s.head }) } in
    (push_down_facts t i s.head).1

touch_capacity : (s : LruInner) (i : Slot) → (attach_head (detach s i) i).capacity ≡ s.capacity
touch_capacity s i = (attach_head_rest (detach s i) i).3 ∙ (unlink_rest s i (s.nodes i)).3

get_at_capacity : (s : LruInner) (o : Option Slot) → (get_at s o).1.capacity ≡ s.capacity
get_at_capacity s none = refl
get_at_capacity s (some i) =
    if_keeps (λ (t : LruInner). t.capacity ≡ s.capacity) (is_head s.head i) s _ refl
      (touch_capacity s i)

take_slot_capacity :
    (s : LruInner) (i : Slot) (o : Option LruNode) → (take_slot s i o).capacity ≡ s.capacity
take_slot_capacity s i none = refl
take_slot_capacity s i (some n) = refl

evict_at_capacity : (s : LruInner) (o : Option Slot) → (evict_at s o).capacity ≡ s.capacity
evict_at_capacity s none = refl
evict_at_capacity s (some i) =
    take_slot_capacity (detach s i) i ((detach s i).nodes i) ∙ (unlink_rest s i (s.nodes i)).3

place_capacity :
    (s : LruInner) (n : LruNode) (free : List Slot) → (place s n free).1.capacity ≡ s.capacity
place_capacity s n [] = refl
place_capacity s n (i ∷ free) = refl

insert_at_capacity :
    (s : LruInner) (k : BlockKey) (v : Bytes) (o : Option Slot)
    → (insert_at s k v o).capacity ≡ s.capacity
insert_at_capacity s k v (some i) =
    touch_capacity (record s { nodes = modify s.nodes i (set_value v) }) i
insert_at_capacity s k v none =
    let node : LruNode = record { key = k; value = v; prev = none; next = none } in
    let placed = place (evict s) node (evict s).free_indices in
    (attach_head_rest placed.1 placed.0).3
    ∙ place_capacity (evict s) node (evict s).free_indices
    ∙ if_keeps (λ (t : LruInner). t.capacity ≡ s.capacity) (leb s.capacity (length s.map)) _ s
        (evict_at_capacity s s.tail) refl

remove_at_capacity :
    (s : LruInner) (k : BlockKey) (o : Option Slot) → (remove_at s k o).1.capacity ≡ s.capacity
remove_at_capacity s k none = refl
remove_at_capacity s k (some i) =
    (unlink_rest (record s { map = without_key s.map k }) i (s.nodes i)).3

-- The calls that change a cache.
pub data CacheOp : Type 0 where
  look_up : BlockKey → CacheOp
  store : BlockKey → Bytes → CacheOp
  take_out : BlockKey → CacheOp
  empty : CacheOp

abbrev pub apply : LruInner → CacheOp → LruInner
apply s (look_up k) = (get s k).1
apply s (store k v) = insert s k v
apply s (take_out k) = (remove s k).1
apply s empty = clear s

abbrev pub run : LruInner → List CacheOp → LruInner
run s [] = s
run s (op ∷ ops) = run (apply s op) ops

apply_capacity : (s : LruInner) (op : CacheOp) → (apply s op).capacity ≡ s.capacity
unfolding get insert remove
apply_capacity s (look_up k) = get_at_capacity s (slot_of s.map k)
apply_capacity s (store k v) =
    if_keeps (λ (t : LruInner). t.capacity ≡ s.capacity) (s.capacity == 0) s _ refl
      (insert_at_capacity s k v (slot_of s.map k))
apply_capacity s (take_out k) = remove_at_capacity s k (slot_of s.map k)
apply_capacity s empty = refl

apply-IsValid : (s : LruInner) (op : CacheOp) → IsValid s → IsValid (apply s op)
apply-IsValid s (look_up k) v = get-IsValid s k v
apply-IsValid s (store k x) v = insert-IsValid s k x v
apply-IsValid s (take_out k) v = remove-IsValid s k v
apply-IsValid s empty v = new-IsValid s.capacity

run-IsValid :
    (s : LruInner) (ops : List CacheOp)
    → IsValid s
    → IsValid (run s ops) × ((run s ops).capacity ≡ s.capacity)
run-IsValid s [] v = (v, refl)
run-IsValid s (op ∷ ops) v =
    let (valid, cap) = run-IsValid (apply s op) ops (apply-IsValid s op v) in
    (valid, cap ∙ apply_capacity s op)

-- After any sequence of lookups, insertions, removals and clears of a new cache: its slots in use
-- are linked in both directions from the head to the tail, are different from each other and from
-- the free ones, and are just those of the keys of the map; and there are at most as many keys as
-- the capacity.
pub new-run :
    (capacity : ℕ) (ops : List CacheOp)
    → IsValid (run (Cache.new capacity) ops)
      × (length (run (Cache.new capacity) ops).map ≤ capacity)
new-run capacity ops =
    let (valid, cap) = run-IsValid (Cache.new capacity) ops (new-IsValid capacity) in
    (valid, omega (arith, cap, valid.1.bounded))
