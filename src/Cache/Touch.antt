-- ===== src/Cache/Touch.antt =====
-- `get` and the other operations of src/cache/mod.rs keep the invariant.
use flash_store.Prelude.{
  ◌<◌, ◌≡◌, inl, inr, refl, ap, sym, ◌∙◌, List, ◌∷◌, ◌++◌, Option, none, some, length, arith, All,
  Option-cases, subst, append_assoc, if_keeps,
}
use flash_store.Bytes.{Bytes}
use flash_store.Cache.{
  Slot, BlockKey, LruNode, LruInner, slot_of, detach, attach_head, get, is_head,
}
use flash_store.Cache.Chain.{NoDup}
use flash_store.Cache.Contents.{
  payload, HasKey, Mapped, Listed, detach-payload, attach_head-payload,
}
use flash_store.Cache.Links.{detach-Lists, attach_head-Lists}
use flash_store.Cache.Valid.{
  Valid, In-split, In-front, All-front, NoDup-front, NoDup-left, kept-HasKey, kept-Mapped,
  kept-Listed, found-In,
}

abbrev pub IsValid : LruInner → Type 0
IsValid s = (order : List Slot) × Valid order s

pub payload-some :
    (o : Option LruNode) (k : BlockKey) (v : Bytes)
    → payload o ≡ some (k, v)
    → (n : LruNode) × (o ≡ some n)
payload-some none k v h = absurd cc
payload-some (some n) k v h = (n, refl)

-- Moving a slot in use to the head.
pub touch-Valid :
    (s : LruInner) (xs : List Slot) (i : Slot) (ys : List Slot) (k : BlockKey)
    → HasKey s.nodes i k
    → Valid (xs ++ i ∷ ys) s
    → Valid (i ∷ (xs ++ ys)) (attach_head (detach s i) i)
touch-Valid s xs i ys k has v =
    let free = s.free_indices in
    let all : NoDup (i ∷ ((xs ++ ys) ++ free)) =
      subst (λ z. NoDup (i ∷ z)) (sym (append_assoc xs ys free))
        (NoDup-front xs i (ys ++ free) (subst NoDup (append_assoc xs (i ∷ ys) free) v.nodup)) in
    let below : All (λ j. j < s.nodes_len) (i ∷ ((xs ++ ys) ++ free)) =
      subst (λ z. All (λ j. j < s.nodes_len) (i ∷ z)) (sym (append_assoc xs ys free))
        (All-front (λ j. j < s.nodes_len) xs i (ys ++ free)
          (subst (All (λ j. j < s.nodes_len)) (append_assoc xs (i ∷ ys) free) v.below)) in
    let (apart, d) = NoDup-left (i ∷ (xs ++ ys)) free all in
    let (l, (len, fr, map, cap)) = detach-Lists s xs i ys v.lists d in
    let (value, has_payload) = has in
    let (node, at) =
      payload-some ((detach s i).nodes i) k value (detach-payload s i i ∙ has_payload) in
    let (l', (len', fr', map', cap')) =
      attach_head-Lists (detach s i) i (xs ++ ys) node l at apart in
    let same : (j : Slot) → payload ((attach_head (detach s i) i).nodes j) ≡ payload (s.nodes j) =
      λ j. attach_head-payload (detach s i) i j ∙ detach-payload s i j in
    let t = attach_head (detach s i) i in
    let new_map = map' ∙ map in
    let new_free = fr' ∙ fr in
    let new_len = len' ∙ len in
    record {
      lists = l';
      nodup = subst (λ f. NoDup (i ∷ ((xs ++ ys) ++ f))) (sym new_free) all;
      below =
          subst (λ f. All (λ j. j < t.nodes_len) (i ∷ ((xs ++ ys) ++ f))) (sym new_free)
            (subst (λ n. All (λ j. j < n) (i ∷ ((xs ++ ys) ++ free))) (sym new_len) below);
      mapped = subst (Mapped t.nodes (i ∷ (xs ++ ys))) (sym new_map) (
          kept-Mapped s.nodes t.nodes (xs ++ i ∷ ys) (i ∷ (xs ++ ys)) s.map
            (λ x k. kept-HasKey s.nodes t.nodes x k (same x)) (λ x. In-front x xs i ys) v.mapped);
      listed =
          subst (λ m. Listed t.nodes m (i ∷ (xs ++ ys))) (sym new_map)
            (kept-Listed s.nodes t.nodes s.map (i ∷ (xs ++ ys))
              (λ x k. kept-HasKey s.nodes t.nodes x k (same x))
              (All-front (λ x. (k : BlockKey) × HasKey s.nodes x k × (slot_of s.map k ≡ some x)) xs
                i ys v.listed));
      bounded = omega (arith, ap length new_map, cap', cap, v.bounded);
    }

pub touch-IsValid :
    (s : LruInner) (k : BlockKey) (i : Slot)
    → slot_of s.map k ≡ some i
    → IsValid s
    → IsValid (attach_head (detach s i) i)
touch-IsValid s k i h (order, v) =
    let (used, has) = found-In s.nodes order s.map k i v.mapped h in
    let (xs, ys, e) = In-split i order used in
    (i ∷ (xs ++ ys), touch-Valid s xs i ys k has (subst (λ o. Valid o s) e v))

pub get-IsValid : (s : LruInner) (k : BlockKey) → IsValid s → IsValid (get s k).1
unfolding get
get-IsValid s k v = elim (Option-cases (slot_of s.map k)) [
  | inl e ↦ rw e v
  | inr (i, e) ↦ rw e (if_keeps IsValid (is_head s.head i) s _ v (touch-IsValid s k i e v))
]
