-- ===== src/Cache/Stored.antt =====
-- What a lookup in the cache of src/cache/mod.rs finds after an insertion.
use flash_store.Prelude.{
  ◌<◌, ◌≡◌, refl, ap, ◌∙◌, Bool, false, List, [], ◌∷◌, Option, none, some, ◌==◌, if◌then◌else◌,
  arith, if_keeps,
}
use flash_store.Bytes.{Bytes}
use flash_store.Cache.{
  Slot, BlockKey, LruNode, LruInner, slot_of, without_key, detach, attach_head, modify, evict,
  place, insert, insert_at, get, get_at, is_head, value_at,
}
use flash_store.Cache.Chain.{modify-at}
use flash_store.Cache.Contents.{payload, same_key_refl, attach_head-payload, detach-payload}
use flash_store.Cache.Inserting.{set_value, headed}
use flash_store.Cache.Touch.{IsValid, payload-some}
use flash_store.Cache.Valid.{found-In}
use flash_store.Cache.Runs.{unlink_rest, attach_head_rest}

value_of :
    (o : Option LruNode) (k : BlockKey) (v : Bytes) → payload o ≡ some (k, v) → value_at o ≡ some v
value_of none k v h = absurd cc
value_of (some n) k v h = cc

get-payload :
    (s : LruInner) (k j : BlockKey) (i : Slot) (v : Bytes)
    → slot_of s.map k ≡ some i
    → payload (s.nodes i) ≡ some (j, v)
    → (get s k).0 ≡ some v
unfolding get
get-payload s k j i v at h =
    let same =
      if_keeps (λ (t : LruInner). payload (t.nodes i) ≡ payload (s.nodes i)) (is_head s.head i) s _
        refl (attach_head-payload (detach s i) i i ∙ detach-payload s i i) in
    ap (λ o. (get_at s o).0) at ∙ value_of _ j v (same ∙ h)

pub place_holds :
    (s : LruInner) (n : LruNode) (free : List Slot)
    → (place s n free).1.nodes (place s n free).0 ≡ some n
place_holds s n [] = ground arith
place_holds s n (i ∷ free) = ground arith

get-insert_at :
    (s : LruInner) (k : BlockKey) (v : Bytes) (o : Option Slot)
    → IsValid s
    → slot_of s.map k ≡ o
    → (get (insert_at s k v o) k).0 ≡ some v
unfolding slot_of
get-insert_at s k v (some i) (order, h) at =
    let t = record s { nodes = modify s.nodes i (set_value v) } in
    let (used, (w, has)) = found-In s.nodes order s.map k i h.mapped at in
    let (node, here) = payload-some (s.nodes i) k w has in
    let map = (attach_head_rest (detach t i) i).2 ∙ (unlink_rest t i (t.nodes i)).2 in
    get-payload (attach_head (detach t i) i) k node.key i v (ap (λ m. slot_of m k) map ∙ at) (
      attach_head-payload (detach t i) i i
      ∙ detach-payload t i i
      ∙ ap payload (modify-at s.nodes i (set_value v) node here))
get-insert_at s k v none valid at =
    let n : LruNode = record { key = k; value = v; prev = none; next = none } in
    let s' = evict s in
    let (i, t) = place s' n s'.free_indices in
    let u = attach_head t i in
    get-payload (headed t i n) k k i v
      (ap (λ (b : Bool). if b then some i else slot_of (without_key u.map k) k) (same_key_refl k))
      (attach_head-payload t i i ∙ ap payload (place_holds s' n s'.free_indices))

-- After a block is put into a well-formed cache with a capacity above 0, a lookup of its key
-- gives it.
pub get-insert :
    (s : LruInner) (k : BlockKey) (v : Bytes)
    → IsValid s
    → 0 < s.capacity
    → (get (insert s k v) k).0 ≡ some v
unfolding insert
get-insert s k v valid p =
    let some_room : (s.capacity == 0) ≡ false = ground arith in
    ap (λ (b : Bool). (get (if b then s else insert_at s k v (slot_of s.map k)) k).0) some_room
    ∙ get-insert_at s k v (slot_of s.map k) valid refl
