-- ===== src/Cache/Interface.antt =====
-- The cache of src/cache/mod.rs as the table reader takes it.
use flash_store.Prelude.{
  ◌≡◌, ◌⊎◌, inl, inr, refl, ap, sym, ◌∙◌, Bool, true, false, List, [], ◌∷◌, Option, none, some,
  ◌==◌, if◌then◌else◌, Bool-cases, subst,
}
use flash_store.Bytes.{Bytes}
use flash_store.Cache.{
  Slot, BlockKey, LruNode, Nodes, LruInner, same_key, slot_of, without_key, attach_head, modify,
  evict, place, insert, insert_at, get, value_at,
}
use flash_store.Cache.Contents.{payload, HasKey, attach_head-payload, same_key-eq, same_key_refl}
use flash_store.Cache.Inserting.{set_value, headed}
use flash_store.Cache.Runs.{attach_head_rest, insert-IsValid}
use flash_store.Cache.Stored.{place_holds}
use flash_store.Cache.Chain.{modify-at}
use flash_store.Cache.Touch.{IsValid, get-IsValid, payload-some}
use flash_store.Cache.Valid.{found-In}
use flash_store.Sstable.Reader.{BlockCache}
use flash_store.Cache.Held.{
  same_slot, held_at, held, value_payload, touch_held, get-held, forgotten, found_held, held-evict,
}

place_other :
    (s : LruInner) (n : LruNode) (free : List Slot) (x : Slot)
    → ((place s n free).0 == x) ≡ false
    → (place s n free).1.nodes x ≡ s.nodes x
place_other s n [] x h = rw h refl
place_other s n (i ∷ free) x h = rw h refl

place_map : (s : LruInner) (n : LruNode) (free : List Slot) → (place s n free).1.map ≡ s.map
place_map s n [] = refl
place_map s n (i ∷ free) = refl

-- Two keys in one slot are one key.
one_slot : (a : Nodes) (i : Slot) (k j : BlockKey) → HasKey a i k → HasKey a i j → k ≡ j
one_slot a i k j (v, h) (w, g) = let e : some (k, v) ≡ some (j, w) = sym h ∙ g in cc

payload_value :
    (o : Option LruNode) (k : BlockKey) (v w : Bytes)
    → payload o ≡ some (k, v)
    → value_at o ≡ some w
    → w ≡ v
payload_value none k v w h g = absurd cc
payload_value (some n) k v w h g = cc

present_held :
    (s : LruInner) (k : BlockKey) (v : Bytes) (j : BlockKey) (w : Bytes) (i : Slot)
    → slot_of s.map k ≡ some i
    → IsValid s
    → held (record s { nodes = modify s.nodes i (set_value v) }) j ≡ some w
    → ((j ≡ k) × (w ≡ v)) ⊎ (held s j ≡ some w)
unfolding modify
present_held s k v j w i at (order, h) g =
    let t = record s { nodes = modify s.nodes i (set_value v) } in
    let (x, found, value) = found_held t j w g in
    elim (Bool-cases (i == x)) [
      | inr far ↦ inr (
          ap (held_at s) found
          ∙ subst
              (λ (c : Bool).
                value_at (
                  if c
                  then elim (s.nodes x) [ none ↦ none | some n ↦ some (set_value v n) ]
                  else s.nodes x)
                ≡ some w)
              far value)
      | inl e ↦
          let same = same_slot i x e in
          let (_, has_k) = found-In s.nodes order s.map k i h.mapped at in
          let (_, has_j) = found-In s.nodes order s.map j x h.mapped found in
          let keys = one_slot s.nodes i j k (subst (λ y. HasKey s.nodes y j) same has_j) has_k in
          let (node, here) = payload-some (s.nodes i) k has_k.0 has_k.1 in
          let new : value_at (t.nodes i) ≡ some v =
            ap value_at (modify-at s.nodes i (set_value v) node here) in
          let both : some w ≡ some v = sym value ∙ ap (λ y. value_at (t.nodes y)) same ∙ new in
          inl (keys, cc)
    ]

absent_held :
    (s : LruInner) (k : BlockKey) (v : Bytes) (j : BlockKey) (w : Bytes)
    → IsValid (insert_at s k v none)
    → held (insert_at s k v none) j ≡ some w
    → ((j ≡ k) × (w ≡ v)) ⊎ (held s j ≡ some w)
unfolding slot_of
absent_held s k v j w (order, h) g =
    let n : LruNode = record { key = k; value = v; prev = none; next = none } in
    let free = (evict s).free_indices in
    let placed = place (evict s) n free in
    let i = placed.0 in
    let t = placed.1 in
    let u = attach_head t i in
    let r = headed t i n in
    let here : payload (u.nodes i) ≡ some (k, v) =
      attach_head-payload t i i ∙ ap payload (place_holds (evict s) n free) in
    let (x, found, value) = found_held r j w g in
    elim (Bool-cases (same_key k j)) [
      | inl same ↦
          let slots : some i ≡ some x =
            subst (λ (c : Bool). some i ≡ (if c then some i else slot_of (without_key u.map k) j))
              (sym same) refl
            ∙ found in
          let is_i : x ≡ i = cc in
          inl (
            sym (same_key-eq k j same),
            payload_value (u.nodes i) k v w here
                (ap (λ y. value_at (u.nodes y)) (sym is_i) ∙ value),
          )
      | inr other ↦
          let later : slot_of (without_key u.map k) j ≡ some x =
            subst (λ (c : Bool). (if c then some i else slot_of (without_key u.map k) j) ≡ some x)
              other found in
          let (_, has_j) = found-In u.nodes order r.map j x h.mapped found in
          elim (Bool-cases (i == x)) [
            | inl e ↦
                let same = same_slot i x e in
                let keys =
                  one_slot u.nodes i k j (v, here) (subst (λ y. HasKey u.nodes y j) same has_j) in
                let b : true ≡ false = sym (same_key_refl k) ∙ ap (same_key k) keys ∙ other in
                absurd cc
            | inr far ↦
                let was : slot_of (evict s).map j ≡ some x =
                  ap (λ m. slot_of m j)
                    (sym ((attach_head_rest t i).2 ∙ place_map (evict s) n free))
                  ∙ forgotten u.map k j x later in
                inr (
                  held-evict s j w (
                    ap (held_at (evict s)) was
                    ∙ value_payload ((evict s).nodes x) (u.nodes x) (
                        ap payload (sym (place_other (evict s) n free x far))
                        ∙ sym (attach_head-payload t i x))
                    ∙ value))
          ]
    ]

-- After an insertion a key has what was put under it, or what it had before.
held_after_insertion :
    (s : LruInner) (k : BlockKey) (v : Bytes) (j : BlockKey) (w : Bytes)
    → IsValid s
    → IsValid (insert s k v)
    → held (insert s k v) j ≡ some w
    → ((j ≡ k) × (w ≡ v)) ⊎ (held s j ≡ some w)
unfolding insert
held_after_insertion s k v j w valid valid' h = elim (Bool-cases (s.capacity == 0)) [
  | inl e ↦ inr (
      subst (λ (c : Bool). held (if c then s else insert_at s k v (slot_of s.map k)) j ≡ some w) e
        h)
  | inr e ↦
      at (slot_of s.map k) refl
        (subst (λ (c : Bool). IsValid (if c then s else insert_at s k v (slot_of s.map k))) e
          valid')
        (subst (λ (c : Bool). held (if c then s else insert_at s k v (slot_of s.map k)) j ≡ some w)
          e h)
]
  where
    at :
        (o : Option Slot)
        → slot_of s.map k ≡ o
        → IsValid (insert_at s k v o)
        → held (insert_at s k v o) j ≡ some w
        → ((j ≡ k) × (w ≡ v)) ⊎ (held s j ≡ some w)
    at (some i) e after g = present_held s k v j w i e valid (sym (touch_held _ i j) ∙ g)
    at none e after g = absent_held s k v j w after g

-- What a well-formed cache has under a key after an insertion is the block that was put under
-- that key, or what it had under the key before.
pub held-insert :
    (s : LruInner) (k : BlockKey) (v : Bytes) (j : BlockKey) (w : Bytes)
    → IsValid s
    → held (insert s k v) j ≡ some w
    → ((j ≡ k) × (w ≡ v)) ⊎ (held s j ≡ some w)
held-insert s k v j w valid h = held_after_insertion s k v j w valid (insert-IsValid s k v valid) h

-- A well-formed cache, as the reader takes it.
abbrev pub LruBlockCache : Type 0
LruBlockCache = (s : LruInner) × IsValid s

instance pub lru_block_cache : BlockCache LruBlockCache
lru_block_cache = record {
  get = λ c k. let (v, t) = get c.0 k in (v, (t, get-IsValid c.0 k c.1));
  insert = λ c k v. (insert c.0 k v, insert-IsValid c.0 k v c.1);
  holds = λ c k. held c.0 k;
  get-holds = λ c k. (get-held c.0 k k).0;
  holds-get = λ c k j w h. sym (get-held c.0 k j).1 ∙ h;
  holds-insert = λ c k v j w h. held-insert c.0 k v j w c.1 h;
}
