-- ===== src/Cache/Held.antt =====
-- What the cache of src/cache/mod.rs has under a key, and which calls leave it.
use flash_store.Prelude.{
  ◌≡◌, inl, inr, refl, ap, sym, ◌∙◌, Bool, true, Option, none, some, ◌==◌, leb, if◌then◌else◌,
  length, arith, Bool-cases, subst, if_keeps,
}
use flash_store.Bytes.{Bytes}
use flash_store.Cache.{
  Slot, BlockKey, LruNode, LruInner, SlotMap, same_key, slot_of, without_key, detach, attach_head,
  evict, evict_at, take_slot, get, get_at, is_head, value_at,
}
use flash_store.Cache.Contents.{payload, attach_head-payload, detach-payload, slot_of-without_key}
use flash_store.Cache.Runs.{unlink_rest, attach_head_rest}

-- A test that finds two slots equal.
pub same_slot : (i x : Slot) → (i == x) ≡ true → x ≡ i
same_slot i x e = ground (arith, e)

abbrev pub held_at : LruInner → Option Slot → Option Bytes
held_at s none = none
held_at s (some i) = value_at (s.nodes i)

-- What the cache has under a key.
abbrev pub held : LruInner → BlockKey → Option Bytes
held s k = held_at s (slot_of s.map k)

pub value_payload : (o p : Option LruNode) → payload o ≡ payload p → value_at o ≡ value_at p
value_payload none none h = refl
value_payload none (some n) h = absurd cc
value_payload (some m) none h = absurd cc
value_payload (some m) (some n) h = let e : m.value ≡ n.value = cc in ap some e

-- A change of links alone changes nothing that is held.
held-payload :
    (s t : LruInner) (j : BlockKey)
    → t.map ≡ s.map
    → ((i : Slot) → payload (t.nodes i) ≡ payload (s.nodes i))
    → held t j ≡ held s j
held-payload s t j map same = ap (λ m. held_at t (slot_of m j)) map ∙ at (slot_of s.map j)
  where
    at : (o : Option Slot) → held_at t o ≡ held_at s o
    at none = refl
    at (some i) = value_payload (t.nodes i) (s.nodes i) (same i)

pub touch_held :
    (s : LruInner) (i : Slot) (j : BlockKey) → held (attach_head (detach s i) i) j ≡ held s j
touch_held s i j =
    held-payload s (attach_head (detach s i) i) j
      ((attach_head_rest (detach s i) i).2 ∙ (unlink_rest s i (s.nodes i)).2)
      (λ x. attach_head-payload (detach s i) i x ∙ detach-payload s i x)

get_at-held :
    (s : LruInner) (o : Option Slot) (j : BlockKey)
    → ((get_at s o).0 ≡ held_at s o) × (held (get_at s o).1 j ≡ held s j)
get_at-held s none j = (refl, refl)
get_at-held s (some i) j = (
  if_keeps (λ (t : LruInner). value_at (t.nodes i) ≡ value_at (s.nodes i)) (is_head s.head i) s _
      refl (value_payload _ _ (attach_head-payload (detach s i) i i ∙ detach-payload s i i)),
  if_keeps (λ (t : LruInner). held t j ≡ held s j) (is_head s.head i) s _ refl (touch_held s i j),
)

pub get-held :
    (s : LruInner) (k j : BlockKey) → ((get s k).0 ≡ held s k) × (held (get s k).1 j ≡ held s j)
unfolding get
get-held s k j = get_at-held s (slot_of s.map k) j

pub forgotten :
    (m : SlotMap) (k j : BlockKey) (i : Slot)
    → slot_of (without_key m k) j ≡ some i
    → slot_of m j ≡ some i
forgotten m k j i h =
    let e : (if same_key j k then none else slot_of m j) ≡ some i =
      sym (slot_of-without_key m k j) ∙ h in
    elim (Bool-cases (same_key j k)) [
      | inl b ↦
          let gone : none ≡ some i =
            subst (λ (c : Bool). (if c then none else slot_of m j) ≡ some i) b e in
          absurd cc
      | inr b ↦ subst (λ (c : Bool). (if c then none else slot_of m j) ≡ some i) b e
    ]

pub found_held :
    (s : LruInner) (j : BlockKey) (w : Bytes)
    → held s j ≡ some w
    → (i : Slot) × (slot_of s.map j ≡ some i) × (value_at (s.nodes i) ≡ some w)
found_held s j w h = at (slot_of s.map j) refl h
  where
    at :
        (o : Option Slot)
        → slot_of s.map j ≡ o
        → held_at s o ≡ some w
        → (i : Slot) × (slot_of s.map j ≡ some i) × (value_at (s.nodes i) ≡ some w)
    at none e g = absurd cc
    at (some i) e g = (i, e, g)

held-take_slot :
    (s : LruInner) (i : Slot) (o : Option LruNode) (j : BlockKey) (w : Bytes)
    → held (take_slot s i o) j ≡ some w
    → held s j ≡ some w
held-take_slot s i none j w h = h
held-take_slot s i (some n) j w h =
    let (x, found, value) = found_held (take_slot s i (some n)) j w h in
    elim (Bool-cases (i == x)) [
      | inl e ↦
          let gone : none ≡ some w =
            subst (λ (c : Bool). value_at (if c then none else s.nodes x) ≡ some w) e value in
          absurd cc
      | inr e ↦
          ap (held_at s) (forgotten s.map n.key j x found)
          ∙ subst (λ (c : Bool). value_at (if c then none else s.nodes x) ≡ some w) e value
    ]

held-evict_at :
    (s : LruInner) (o : Option Slot) (j : BlockKey) (w : Bytes)
    → held (evict_at s o) j ≡ some w
    → held s j ≡ some w
held-evict_at s none j w h = h
held-evict_at s (some i) j w h =
    sym (held-payload s (detach s i) j (unlink_rest s i (s.nodes i)).2 (detach-payload s i))
    ∙ held-take_slot (detach s i) i ((detach s i).nodes i) j w h

pub held-evict :
    (s : LruInner) (j : BlockKey) (w : Bytes) → held (evict s) j ≡ some w → held s j ≡ some w
held-evict s j w =
    if_keeps (λ (t : LruInner). held t j ≡ some w → held s j ≡ some w)
      (leb s.capacity (length s.map)) _ s (held-evict_at s s.tail j w) (λ h. h)
