-- ===== src/Cache/Forgetting.antt =====
-- What the map and the slots of src/cache/mod.rs say when a key is forgotten.
use flash_store.Prelude.{
  ◌≡◌, inl, inr, refl, ap, sym, ◌∙◌, Bool, true, false, List, [], ◌∷◌, ◌++◌, Option, none, some,
  ◌==◌, if◌then◌else◌, arith, In, Bool-cases,
}
use flash_store.Cache.{
  Slot, BlockKey, LruNode, Nodes, SlotMap, same_key, slot_of, without_key, set_slot,
}
use flash_store.Cache.Chain.{Apart, Same}
use flash_store.Cache.Contents.{
  payload, HasKey, Mapped, Listed, slot_of-without_key, same_key-eq, same_key_refl,
}
use flash_store.Cache.Valid.{In-front}

pub set_slot-Same :
    (a : Nodes) (i : Slot) (o : Option LruNode) (is : List Slot)
    → Apart i is
    → Same a (set_slot a i o) is
set_slot-Same a i o [] h = tt
set_slot-Same a i o (j ∷ is) h = (rw h.0 refl, set_slot-Same a i o is h.1)

-- The other slots hold what they held.
other-HasKey :
    (a b : Nodes) (i : Slot) (x : Slot) (k : BlockKey)
    → ((j : Slot) → payload (b j) ≡ payload (a j))
    → (i == x) ≡ false
    → HasKey a x k
    → HasKey (set_slot b i none) x k
other-HasKey a b i x k e far (v, h) = (v, rw far (e x ∙ h))

one_key :
    (a : Nodes) (i x : Slot) (k j : BlockKey)
    → HasKey a i k
    → HasKey a x j
    → same_key j k ≡ false
    → (i == x) ≡ false
one_key a i x k j (v, h) (w, g) far = elim (Bool-cases (i == x)) [
  | inr e ↦ e
  | inl e ↦
      let same : i ≡ x = ground (arith, e) in
      let at : payload (a i) ≡ some (j, w) = ap (λ y. payload (a y)) same ∙ g in
      let keys : k ≡ j = cc in
      let b : true ≡ false = sym (same_key_refl k) ∙ ap (λ z. same_key z k) keys ∙ far in absurd cc
]

pub Mapped-without_key :
    (a b : Nodes) (xs : List Slot) (i : Slot) (ys : List Slot) (k : BlockKey) (m : SlotMap)
    → ((j : Slot) → payload (b j) ≡ payload (a j))
    → HasKey a i k
    → Mapped a (xs ++ i ∷ ys) m
    → Mapped (set_slot b i none) (xs ++ ys) (without_key m k)
unfolding without_key
Mapped-without_key a b xs i ys k [] e has h = tt
Mapped-without_key a b xs i ys k ((j, x) ∷ m) e has h = elim (Bool-cases (same_key j k)) [
  | inl same ↦ rw same (Mapped-without_key a b xs i ys k m e has h.1)
  | inr far ↦
      let apart = one_key a i x k j has h.0.1 far in
      let there : In x (xs ++ ys) = elim (In-front x xs i ys h.0.0) [
        | inl same ↦ absurd (ground (arith, apart, same))
        | inr r ↦ r
      ] in
      rw far (
        (there, other-HasKey a b i x j e apart h.0.1),
        Mapped-without_key a b xs i ys k m e has h.1,
      )
]

pub Listed-without_key :
    (a b : Nodes) (i : Slot) (k : BlockKey) (m : SlotMap) (is : List Slot)
    → ((j : Slot) → payload (b j) ≡ payload (a j))
    → slot_of m k ≡ some i
    → Apart i is
    → Listed a m is
    → Listed (set_slot b i none) (without_key m k) is
Listed-without_key a b i k m [] e at far h = tt
Listed-without_key a b i k m (x ∷ is) e at far ((j, has, found), h) =
    let other : same_key j k ≡ false = elim (Bool-cases (same_key j k)) [
      | inr o ↦ o
      | inl same ↦
          let keys = same_key-eq j k same in
          let slots : some x ≡ some i = sym found ∙ ap (slot_of m) keys ∙ at in
          let eq : x ≡ i = cc in absurd (ground (arith, far.0, eq))
    ] in
    (
      (
        j,
        other-HasKey a b i x j e far.0 has,
        slot_of-without_key m k j
            ∙ ap (λ (c : Bool). if c then none else slot_of m j) other
            ∙ found,
      ),
      Listed-without_key a b i k m is e at far.1 h,
    )
