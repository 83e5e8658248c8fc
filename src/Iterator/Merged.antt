-- ===== src/Iterator/Merged.antt =====
-- What the merge of src/iterator/mod.rs yields.
use flash_store.Prelude.{
  ℕ, zero, suc, ◌≤◌, ◌≡◌, refl, ap, sym, ◌∙◌, subst, true, false, [], ◌∷◌, none, some, In, length,
  Option-cases, Bool-cases, inl, inr, arith, if◌then◌else◌,
}
use flash_store.BTreeMap.{get}
use flash_store.BTreeMap.Laws.{IsSorted}
use flash_store.Bytes.{key_le, key_eq, cmp_swap, cmp_refl, eq_of_cmp, lt_trans, ◌≺◌}
use flash_store.Types.{Key, Value}
use flash_store.Iterator.{
  StorageIterator, HeapNode, Heap, pop, push_valid, advanced, heap_size, skip_equal,
}
use flash_store.Iterator.Heap.{Popped, pop_cases, le_antisym}
use flash_store.Iterator.Shrinking.{
  rem, Good, Has, head_items, Shrinks, Shrinks-refl, Shrinks-trans, again, again-size,
  again-Shrinks, get-first, get-ge,
}

-- A key that is not below and not equal is above.
pub lt_of : (a b : Key) → key_le a b ≡ true → key_eq b a ≡ false → a ≺ b
lt_of a b le other = ground (arith, cmp_swap a b, le, other)

module _ {I : Type 0} ⦃its : StorageIterator I⦄ where
  abbrev pub AtLeast : Key → Heap I → Type 0
  AtLeast k₀ h = (index : ℕ) (k : Key) (v : Value) → Has h index k v → key_le k₀ k ≡ true

  abbrev pub Without : Key → Heap I → Type 0
  Without k₀ h = (n : HeapNode I) → In n h → get (rem n) k₀ ≡ none

  node_size : (n : HeapNode I) (h : Heap I) → In n h → length (rem n) ≤ heap_size h
  node_size n [] i = absurd (elim i [ ])
  node_size n (m ∷ h) (inl e) = omega (arith, ap (λ n. length (rem n)) e)
  node_size n (m ∷ h) (inr i) = omega (arith, node_size n h i)

  -- A node has its own first item.
  pub head_has :
      (h : Heap I) (n : HeapNode I)
      → Good h
      → In n h
      → get (rem n) (its.key n.iter) ≡ some (its.value n.iter)
  head_has h n g i =
      ap (λ m. get m (its.key n.iter)) (head_items n (g n i).0)
      ∙ get-first (its.key n.iter) (its.value n.iter) (rem (advanced n))

  -- A key that a node has is not below its first one.
  pub head_le :
      (h : Heap I) (n : HeapNode I) (k : Key) (v : Value)
      → Good h
      → In n h
      → get (rem n) k ≡ some v
      → key_le (its.key n.iter) k ≡ true
  head_le h n k v g i q =
      let items = head_items n (g n i).0 in
      get-ge (its.key n.iter) k (its.value n.iter) v (rem (advanced n))
        (subst IsSorted items (g n i).1).0 (ap (λ m. get m k) (sym items) ∙ q)

  nothing_equal :
      (h : Heap I) (top : HeapNode I) (rest : Heap I) (k₀ : Key)
      → Good h
      → AtLeast k₀ h
      → Popped h top rest
      → key_eq (its.key top.iter) k₀ ≡ false
      → Without k₀ h
  nothing_equal h top rest k₀ g low p other n i = elim (Option-cases (get (rem n) k₀)) [
    | inl q ↦ q
    | inr (v, q) ↦
        let up = head_le h n k₀ v g i q in
        let above =
          low top.index (its.key top.iter) _ (top, (p.top_in, (refl, head_has h top g p.top_in))) in
        absurd (squeeze (its.key top.iter) (its.key n.iter) k₀ (p.least n i).0 up above other)
  ]
    where
      squeeze :
          (a b c : Key)
          → key_le a b ≡ true
          → key_le b c ≡ true
          → key_le c a ≡ true
          → key_eq a c ≡ false
          → ⊥
      squeeze a b c p q r other =
          let le : key_le a c ≡ true =
            ground (arith, eq_of_cmp a b, eq_of_cmp b c, lt_trans a b c, p, q) in
          let one = le_antisym a c le r in
          let same : key_eq a c ≡ key_eq a a = ap (key_eq a) (sym one) in
          ground (arith, cmp_refl a, same, other)

  skip-step :
      (fuel : ℕ) (k₀ : Key) (h : Heap I) (n : HeapNode I) (rest : Heap I)
      → pop h ≡ some (n, rest)
      → skip_equal (suc fuel) k₀ h ≡ (
          if key_eq (its.key n.iter) k₀
          then skip_equal fuel k₀ (push_valid (advanced n) rest)
          else h)
  unfolding skip_equal
  skip-step fuel k₀ h n rest e = ground (arith, e)

  skip-done : (fuel : ℕ) (k₀ : Key) (h : Heap I) → pop h ≡ none → skip_equal (suc fuel) k₀ h ≡ h
  unfolding skip_equal
  skip-done fuel k₀ h e = ground (arith, e)

  -- The loop over equal keys ends with none left, and takes nothing else.
  pub skip_equal-lem :
      (fuel : ℕ) (k₀ : Key) (h : Heap I)
      → heap_size h ≤ fuel
      → Good h
      → AtLeast k₀ h
      → Shrinks k₀ h (skip_equal fuel k₀ h) × Without k₀ (skip_equal fuel k₀ h)
  unfolding skip_equal
  skip_equal-lem zero k₀ h le g low = (
    Shrinks-refl k₀ h g,
    λ n i.
        let small = node_size n h i in
        let items = ap length (head_items n (g n i).0) in absurd (omega arith),
  )
  skip_equal-lem (suc fuel) k₀ h le g low = elim (pop_cases h) [
    | inl (e, empty) ↦
        subst (λ x. Shrinks k₀ h x × Without k₀ x) (sym (skip-done fuel k₀ h e))
          (Shrinks-refl k₀ h g, λ n i. absurd (elim (subst (In n) empty i) [ ]))
    | inr (n, (rest, (e, p))) ↦ elim (Bool-cases (key_eq (its.key n.iter) k₀)) [
      | inr other ↦
          subst (λ x. Shrinks k₀ h x × Without k₀ x)
            (sym (skip-step fuel k₀ h n rest e ∙ rw other refl))
            (Shrinks-refl k₀ h g, nothing_equal h n rest k₀ g low p other)
      | inl same ↦
          let one : its.key n.iter ≡ k₀ = eq_of_cmp (its.key n.iter) k₀ (ground (arith, same)) in
          let first =
            subst (λ k. Shrinks k h (again h n rest g p)) one (again-Shrinks h n rest g p) in
          let size = again-size h n rest g p in
          let (later, done) =
            skip_equal-lem fuel k₀ (again h n rest g p) (omega arith) first.good
              (λ index k v x. low index k v (first.back index k v x)) in
          subst (λ x. Shrinks k₀ h x × Without k₀ x)
            (sym (skip-step fuel k₀ h n rest e ∙ rw same refl))
            (Shrinks-trans k₀ h (again h n rest g p) _ first later, done)
    ]
  ]
