-- ===== src/Cache/Dropping.antt =====
-- `remove` and the eviction of src/cache/mod.rs keep the invariant.
use flash_store.Prelude.{
  ◌<◌, ◌≡◌, inl, inr, refl, ap, sym, ◌∙◌, List, [], ◌∷◌, ◌++◌, Option, none, some, leb, length,
  arith, All, All-right, In, Bool-cases, Option-cases, subst, append_assoc,
}
use flash_store.Bytes.{Bytes}
use flash_store.Cache.{
  Slot, BlockKey, LruNode, Nodes, LruInner, SlotMap, slot_of, without_key, detach, unlink, cut,
  set_slot, remove, remove_at, evict, evict_at, take_slot,
}
use flash_store.Cache.Chain.{NoDup, Same-IsChain}
use flash_store.Cache.Contents.{
  payload, HasKey, Mapped, Listed, detach-payload, without_key_shorter,
}
use flash_store.Cache.Links.{detach-Lists, last-append}
use flash_store.Cache.Valid.{
  Valid, In-split, All-front, All-middle, NoDup-front, NoDup-middle, NoDup-left, found-In,
}
use flash_store.Cache.Touch.{IsValid, payload-some}
use flash_store.Cache.Forgetting.{set_slot-Same, Mapped-without_key, Listed-without_key}

-- The state without a slot and its key.
abbrev dropped : LruInner → Slot → BlockKey → LruInner
dropped d i k = record d {
  nodes = set_slot d.nodes i none;
  map = without_key d.map k;
  free_indices = i ∷ d.free_indices;
}

drop-Valid :
    (s : LruInner) (xs : List Slot) (i : Slot) (ys : List Slot) (k : BlockKey)
    → HasKey s.nodes i k
    → slot_of s.map k ≡ some i
    → Valid (xs ++ i ∷ ys) s
    → Valid (xs ++ ys) (dropped (detach s i) i k)
      × (length (dropped (detach s i) i k).map < length s.map)
      × ((detach s i).capacity ≡ s.capacity)
      × ((detach s i).map ≡ s.map)
drop-Valid s xs i ys k has at v =
    let free = s.free_indices in
    let d = detach s i in
    let t = dropped d i k in
    let moved = append_assoc xs (i ∷ ys) free in
    let back = sym (append_assoc xs ys free) in
    let front : NoDup (i ∷ ((xs ++ ys) ++ free)) =
      subst (λ z. NoDup (i ∷ z)) back (NoDup-front xs i (ys ++ free) (subst NoDup moved v.nodup)) in
    let all = NoDup-middle (xs ++ ys) i free front in
    let below = λ (P : Slot → Type 0) (h : All P ((xs ++ i ∷ ys) ++ free)).
      All-middle P (xs ++ ys) i free
        (subst (λ z. All P (i ∷ z)) back (All-front P xs i (ys ++ free) (subst (All P) moved h))) in
    let (apart, nodup) = NoDup-left (i ∷ (xs ++ ys)) free front in
    let (l, (len, fr, map, cap)) = detach-Lists s xs i ys v.lists nodup in
    let same = detach-payload s i in
    let listed =
      All-front (λ x. (k : BlockKey) × HasKey s.nodes x k × (slot_of s.map k ≡ some x)) xs i ys
        v.listed in
    let shorter : length t.map < length s.map =
      subst (λ m. length (without_key m k) < length s.map) (sym map)
        (without_key_shorter s.map k i at) in
    (
      record {
        lists = record {
          chain =
              Same-IsChain d.nodes t.nodes none (xs ++ ys) none
                (set_slot-Same d.nodes i none (xs ++ ys) apart) l.chain;
          head = l.head;
          tail = l.tail;
          nodup = nodup;
        };
        nodup = subst (λ f. NoDup ((xs ++ ys) ++ i ∷ f)) (sym fr) all;
        below =
            subst (λ f. All (λ j. j < d.nodes_len) ((xs ++ ys) ++ i ∷ f)) (sym fr)
              (subst (λ n. All (λ j. j < n) ((xs ++ ys) ++ i ∷ free)) (sym len)
                (below (λ j. j < s.nodes_len) v.below));
        mapped =
            subst (λ m. Mapped t.nodes (xs ++ ys) (without_key m k)) (sym map)
              (Mapped-without_key s.nodes d.nodes xs i ys k s.map same has v.mapped);
        listed =
            subst (λ m. Listed t.nodes (without_key m k) (xs ++ ys)) (sym map)
              (Listed-without_key s.nodes d.nodes i k s.map (xs ++ ys) same at apart listed.1);
        bounded = omega (arith, shorter, cap, v.bounded);
      },
      shorter,
      cap,
      map,
    )

last_of :
    (order : List Slot) (i : Slot)
    → In i order
    → (xs : List Slot) × (j : Slot) × (order ≡ xs ++ j ∷ [])
last_of [] i h = elim h [ ]
last_of (x ∷ []) i h = ([], x, refl)
last_of (x ∷ y ∷ order) i h =
    let (xs, j, e) = last_of (y ∷ order) y (inl refl) in (x ∷ xs, j, ap (◌∷◌ x) e)

some_entry :
    (a : Nodes) (order : List Slot) (m : SlotMap)
    → Mapped a order m
    → 0 < length m
    → (i : Slot) × In i order
some_entry a order [] h p = absurd (omega arith)
some_entry a order ((k, i) ∷ m) h p = (i, h.0.0)

pub node_key :
    (o : Option LruNode) (n : LruNode) (k : BlockKey) (v : Bytes)
    → o ≡ some n
    → payload o ≡ some (k, v)
    → n.key ≡ k
node_key o n k v e h = let at : some (n.key, n.value) ≡ some (k, v) = ap payload (sym e) ∙ h in cc

cut_map :
    (s : LruInner) (m : SlotMap) (i : Slot) (p n : Option Slot)
    → cut (record s { map = m }) i p n ≡ record (cut s i p n) { map = m }
cut_map s m i none none = refl
cut_map s m i none (some n) = refl
cut_map s m i (some p) none = refl
cut_map s m i (some p) (some n) = refl

-- A full cache makes room.
pub evict-IsValid :
    (s : LruInner)
    → 0 < s.capacity
    → IsValid s
    → IsValid (evict s) × (length (evict s).map < (evict s).capacity)
evict-IsValid s p (order, v) = elim (Bool-cases (leb s.capacity (length s.map))) [
  | inr room ↦ rw room ((order, v), ground (arith, room))
  | inl full ↦
      let (used, is_used) = some_entry s.nodes order s.map v.mapped (ground (arith, full)) in
      let (xs, j, e) = last_of order used is_used in
      let w : Valid (xs ++ j ∷ []) s = subst (λ o. Valid o s) e v in
      let at_end : s.tail ≡ some j = w.lists.tail ∙ last-append none xs j [] in
      let (k, has, at) =
        (All-right (λ x. (k : BlockKey) × HasKey s.nodes x k × (slot_of s.map k ≡ some x)) xs
          (j ∷ []) w.listed).0 in
      let d = detach s j in
      let (value, has_payload) = has in
      let (node, holds) = payload-some (d.nodes j) k value (detach-payload s j j ∙ has_payload) in
      let key : node.key ≡ k =
        node_key (d.nodes j) node k value holds (detach-payload s j j ∙ has_payload) in
      let gone : evict_at s s.tail ≡ dropped d j k =
        ap (evict_at s) at_end ∙ ap (take_slot d j) holds ∙ ap (dropped d j) key in
      let (valid, shorter, cap, _) = drop-Valid s xs j [] k has at w in
      let P : LruInner → Type 0 = λ x. IsValid x × (length x.map < x.capacity) in
      rw full (subst P (sym gone) ((xs ++ [], valid), omega (arith, shorter, cap, w.bounded)))
]

detach_map :
    (s : LruInner) (m : SlotMap) (i : Slot) (o : Option LruNode)
    → unlink (record s { map = m }) i o ≡ record (unlink s i o) { map = m }
detach_map s m i none = refl
detach_map s m i (some n) = cut_map s m i n.prev n.next

-- Removing a key.
pub remove-IsValid : (s : LruInner) (k : BlockKey) → IsValid s → IsValid (remove s k).1
unfolding remove
remove-IsValid s k (order, v) = elim (Option-cases (slot_of s.map k)) [
  | inl e ↦ rw e (order, v)
  | inr (i, e) ↦
      let (used, has) = found-In s.nodes order s.map k i v.mapped e in
      let (xs, ys, split) = In-split i order used in
      let (valid, _, _, map) = drop-Valid s xs i ys k has e (subst (λ o. Valid o s) split v) in
      let d = detach s i in
      let finish = λ (t : LruInner). record t {
        nodes = set_slot t.nodes i none;
        free_indices = i ∷ t.free_indices;
      } in
      let same : (remove_at s k (some i)).1 ≡ dropped d i k =
        ap finish (detach_map s (without_key s.map k) i (s.nodes i))
        ∙ ap (λ m. finish (record d { map = without_key m k })) (sym map) in
      rw e (subst IsValid (sym same) (xs ++ ys, valid))
]
