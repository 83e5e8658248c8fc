-- ===== src/Iterator/Heap.antt =====
-- The heap of src/iterator/mod.rs.
use flash_store.Prelude.{
  ◌+◌, ◌≤◌, ◌≡◌, refl, ap, sym, ◌∙◌, subst, true, false, [], ◌∷◌, Option, none, some, In, length,
  Option-cases, Bool-cases, inl, inr, ◌⊎◌, arith, if◌then◌else◌,
}
use flash_store.Ordered.{is_lt}
use flash_store.Bytes.{key_le, cmp, cmp_swap, cmp_refl, eq_of_cmp, lt_trans}
use flash_store.Types.{Key}
use flash_store.Iterator.{StorageIterator, HeapNode, Heap, node_cmp, pop, heap_size}

pub le_trans : (a b c : Key) → key_le a b ≡ true → key_le b c ≡ true → key_le a c ≡ true
le_trans a b c p q = ground (arith, eq_of_cmp a b, eq_of_cmp b c, lt_trans a b c)

pub le_antisym : (a b : Key) → key_le a b ≡ true → key_le b a ≡ true → a ≡ b
le_antisym a b p q = ground (arith, cmp_swap a b, eq_of_cmp a b)

module _ {I : Type 0} ⦃its : StorageIterator I⦄ where
  -- The first has the smaller key, or one key and the smaller index.
  abbrev pub Before : HeapNode I → HeapNode I → Type 0
  Before a b =
      (key_le (its.key a.iter) (its.key b.iter) ≡ true)
      × (its.key a.iter ≡ its.key b.iter → a.index ≤ b.index)

  Before-refl : (a : HeapNode I) → Before a a
  Before-refl a = (ground (arith, cmp_refl (its.key a.iter)), λ _. omega arith)

  Before-trans : (a b c : HeapNode I) → Before a b → Before b c → Before a c
  Before-trans a b c p q = (
    le_trans (its.key a.iter) (its.key b.iter) (its.key c.iter) p.0 q.0,
    λ e.
        let one : its.key a.iter ≡ its.key b.iter =
          le_antisym (its.key a.iter) (its.key b.iter) p.0
            (subst (λ x. key_le (its.key b.iter) x ≡ true) (sym e) q.0) in
        omega (arith, p.1 one, q.1 (sym one ∙ e)),
  )

  not_lt-Before : (a b : HeapNode I) → is_lt (node_cmp a b) ≡ false → Before a b
  unfolding node_cmp
  not_lt-Before a b h = (
    ground (arith, cmp_swap (its.key b.iter) (its.key a.iter)),
    λ e.
        let r = cmp_refl (its.key b.iter) in
        ground (arith, cmp_refl (its.key b.iter), ap (cmp (its.key b.iter)) e),
  )

  lt-Before : (a b : HeapNode I) → is_lt (node_cmp a b) ≡ true → Before b a
  unfolding node_cmp
  lt-Before a b h = (
    ground (arith, cmp_swap (its.key b.iter) (its.key a.iter)),
    λ e. ground (arith, cmp_refl (its.key b.iter), ap (cmp (its.key b.iter)) e),
  )

  -- What a popped node and the rest are to the heap.
  pub record Popped (h : Heap I) (top : HeapNode I) (rest : Heap I) : Type 0 where
    pub top_in : In top h
    pub rest_in : (n : HeapNode I) → In n rest → In n h
    pub all : (n : HeapNode I) → In n h → (n ≡ top) ⊎ In n rest
    pub least : (n : HeapNode I) → In n h → Before top n
    pub size : heap_size h ≡ length (its.remaining top.iter) + heap_size rest

  pop-swap :
      (n m : HeapNode I) (ns rest : Heap I)
      → Popped ns m rest
      → Before m n
      → Popped (n ∷ ns) m (n ∷ rest)
  pop-swap n m ns rest p b = record {
    top_in = inr p.top_in;
    rest_in = λ x i. elim i [ inl e ↦ inl e | inr j ↦ inr (p.rest_in x j) ];
    all = λ x i. elim i [
      | inl e ↦ inr (inl e)
      | inr j ↦ elim (p.all x j) [ inl e ↦ inl e | inr k ↦ inr (inr k) ]
    ];
    least = λ x i. elim i [ inl e ↦ subst (Before m) (sym e) b | inr j ↦ p.least x j ];
    size = omega (arith, p.size);
  }

  pop-keep :
      (n m : HeapNode I) (ns rest : Heap I)
      → Popped ns m rest
      → Before n m
      → Popped (n ∷ ns) n (m ∷ rest)
  pop-keep n m ns rest p b = record {
    top_in = inl refl;
    rest_in = λ x i. elim i [
      | inl e ↦ inr (subst (λ y. In y ns) (sym e) p.top_in)
      | inr j ↦ inr (p.rest_in x j)
    ];
    all = λ x i. elim i [ inl e ↦ inl e | inr j ↦ inr (p.all x j) ];
    least = λ x i. elim i [
      | inl e ↦ subst (Before n) (sym e) (Before-refl n)
      | inr j ↦ Before-trans n m x b (p.least x j)
    ];
    size = omega (arith, p.size);
  }

  only-Popped : (n : HeapNode I) → Popped (n ∷ []) n []
  only-Popped n = record {
    top_in = inl refl;
    rest_in = λ x i. absurd (elim i [ ]);
    all = λ x i. i;
    least = λ x i. elim i [
      | inl e ↦ subst (Before n) (sym e) (Before-refl n)
      | inr j ↦ absurd (elim j [ ])
    ];
    size = omega arith;
  }

  abbrev PopResult : Heap I → Option (HeapNode I × Heap I) → Type 0
  PopResult h none = h ≡ []
  PopResult h (some (top, rest)) = Popped h top rest

  pop_step :
      (n : HeapNode I) (ns : Heap I) (o : Option (HeapNode I × Heap I))
      → PopResult ns o
      → PopResult (n ∷ ns) (elim o [
        | none ↦ some (n, [])
        | some (m, rest) ↦ if is_lt (node_cmp n m) then some (m, n ∷ rest) else some (n, m ∷ rest)
      ])
  pop_step n ns none h = subst (λ x. Popped (n ∷ x) n []) (sym h) (only-Popped n)
  pop_step n ns (some (m, rest)) h = elim (Bool-cases (is_lt (node_cmp n m))) [
    | inl less ↦ rw less (pop-swap n m ns rest h (lt-Before n m less))
    | inr other ↦ rw other (pop-keep n m ns rest h (not_lt-Before n m other))
  ]

  pop-result : (h : Heap I) → PopResult h (pop h)
  unfolding pop
  pop-result [] = refl
  pop-result (n ∷ ns) = pop_step n ns (pop ns) (pop-result ns)

  -- `pop` gives a least node, and leaves the others; it gives none only of an empty heap.
  pub pop_cases :
      (h : Heap I)
      → ((pop h ≡ none) × (h ≡ []))
        ⊎ ((top : HeapNode I) × ((rest : Heap I) × ((pop h ≡ some (top, rest))
                × Popped h top rest)))
  pop_cases h = elim (Option-cases (pop h)) [
    | inl e ↦ inl (e, subst (PopResult h) e (pop-result h))
    | inr ((top, rest), e) ↦ inr (top, (rest, (e, subst (PopResult h) e (pop-result h))))
  ]
