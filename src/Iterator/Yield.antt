-- ===== src/Iterator/Yield.antt =====
-- The merge of src/iterator/mod.rs against the maps of its iterators.
use flash_store.Prelude.{
  ℕ, zero, suc, ◌+◌, ◌≤◌, ◌<◌, ◌≡◌, refl, ap, sym, ◌∙◌, subst, true, false, List, [], ◌∷◌, Option,
  none, some, In, length, Option-cases, Bool-cases, inl, inr, ◌⊎◌, arith, All,
}
use flash_store.BTreeMap.{BTreeMap, get}
use flash_store.BTreeMap.Laws.{IsSorted, AllAbove}
use flash_store.Bytes.{key_eq, eq_of_cmp, ◌≺◌}
use flash_store.Types.{Key, Value}
use flash_store.Iterator.{
  StorageIterator, HeapNode, Heap, MergingIterator, pop, push_valid, advanced, heap_of, heap_size,
  skip_equal, advance, new, yielded,
}
use flash_store.Iterator.Heap.{Popped, pop_cases, le_antisym, le_trans}
use flash_store.Iterator.Merged.{lt_of, Without, head_has, head_le, skip_equal-lem}
use flash_store.Iterator.Shrinking.{
  rem, Good, Has, Shrinks, Shrinks-trans, again, again-size, again-Shrinks, pushed-In, In-pushed,
  no_items, no_get,
}

module _ {I : Type 0} ⦃its : StorageIterator I⦄ where
  -- What a heap has under a key: the value of the node with the lowest index that has the key.
  abbrev Best : Heap I → Key → Option Value → Type 0
  Best h k none = (index : ℕ) (v : Value) → Has h index k v → ⊥
  Best h k (some v) =
      (index : ℕ) × (Has h index k v × ((j : ℕ) (w : Value) → Has h j k w → index ≤ j))

  Shrinks-Best :
      (k₀ k : Key) (h h' : Heap I) (o : Option Value)
      → Shrinks k₀ h h'
      → key_eq k k₀ ≡ false
      → Best h' k o
      → Best h k o
  Shrinks-Best k₀ k h h' none s other b = λ index v x. b index v (s.forth index k v other x)
  Shrinks-Best k₀ k h h' (some v) s other (index, (x, least)) =
      (index, (s.back index k v x, λ j w y. least j w (s.forth j k w other y)))

  abbrev AllKeysAbove : Key → Heap I → Type 0
  AllKeysAbove b h = (index : ℕ) (k : Key) (v : Value) → Has h index k v → b ≺ k

  -- What is yielded from a heap.
  abbrev Yields : Heap I → BTreeMap Value → Type 0
  Yields h out =
      IsSorted out
      × ((b : Key) → AllKeysAbove b h → AllAbove b out)
      × ((k : Key) → Best h k (get out k))

  yielded-done :
      (fuel : ℕ) (m : MergingIterator I) → pop m.heap ≡ none → yielded (suc fuel) (advance m) ≡ []
  unfolding yielded advance
  yielded-done fuel m e = ground (arith, e)

  yielded-step :
      (fuel : ℕ) (m : MergingIterator I) (top : HeapNode I) (rest : Heap I)
      → pop m.heap ≡ some (top, rest)
      → let h = push_valid (advanced top) rest in
        yielded (suc fuel) (advance m)
        ≡ (its.key top.iter, its.value top.iter)
          ∷ yielded fuel (
              advance (record {
                heap = skip_equal (heap_size h) (its.key top.iter) h;
                current = some (its.key top.iter, its.value top.iter);
              }))
  unfolding yielded advance
  yielded-step fuel m top rest e = ground (arith, e)

  -- The top of a heap is what it has under the key of the top.
  top-Best :
      (h : Heap I) (top : HeapNode I) (rest : Heap I)
      → Good h
      → Popped h top rest
      → Best h (its.key top.iter) (some (its.value top.iter))
  top-Best h top rest g p = (
    top.index,
    (
      (top, (p.top_in, (refl, head_has h top g p.top_in))),
      λ j w (n, (i, (at, q))).
          let before = p.least n i in
          let one =
            le_antisym (its.key top.iter) (its.key n.iter) before.0
              (head_le h n (its.key top.iter) w g i q) in
          omega (arith, before.1 one, at),
    ),
  )

  step-Yields :
      (h h' : Heap I) (top : HeapNode I) (rest : Heap I) (out : BTreeMap Value)
      → Good h
      → Popped h top rest
      → Shrinks (its.key top.iter) h h'
      → Without (its.key top.iter) h'
      → Yields h' out
      → Yields h ((its.key top.iter, its.value top.iter) ∷ out)
  unfolding get
  step-Yields h h' top rest out g p s w (sorted, above, best) =
      let k₀ = its.key top.iter in
      let first : AllAbove k₀ out = above k₀ (λ index k v (n, (i, (at, q))).
        let (m, (j, (_, r))) = s.back index k v (n, (i, (at, q))) in
        let le = head_le h m k v g j r in
        lt_of k₀ k (le_trans k₀ (its.key m.iter) k (p.least m j).0 le)
          (not_same k k₀ v n (w n i) q)) in
      (
        (first, sorted),
        λ b low. (
          low top.index k₀ (its.value top.iter)
              (top, (p.top_in, (refl, head_has h top g p.top_in))),
          above b (λ index k v x. low index k v (s.back index k v x)),
        ),
        λ k. elim (Bool-cases (key_eq k k₀)) [
          | inl same ↦ rw same (
              subst (λ x. Best h x (some (its.value top.iter)))
                (sym (eq_of_cmp k k₀ (ground (arith, same)))) (top-Best h top rest g p))
          | inr other ↦ rw other (Shrinks-Best k₀ k h h' (get out k) s other (best k))
        ],
      )
    where
      not_same :
          (k k₀ : Key) (v : Value) (n : HeapNode I)
          → get (rem n) k₀ ≡ none
          → get (rem n) k ≡ some v
          → key_eq k k₀ ≡ false
      not_same k k₀ v n absent there = elim (Bool-cases (key_eq k k₀)) [
        | inr other ↦ other
        | inl same ↦ let one = ap (get (rem n)) (eq_of_cmp k k₀ (ground (arith, same))) in absurd cc
      ]

  yielded-Yields :
      (fuel : ℕ) (m : MergingIterator I)
      → heap_size m.heap < fuel
      → Good m.heap
      → Yields m.heap (yielded fuel (advance m))
  unfolding get
  yielded-Yields zero m le g = absurd (omega arith)
  yielded-Yields (suc fuel) m le g = elim (pop_cases m.heap) [
    | inl (e, empty) ↦
        subst (Yields m.heap) (sym (yielded-done fuel m e))
          (tt, λ b low. tt, λ k index v (n, (i, _)). elim (subst (In n) empty i) [ ])
    | inr (top, (rest, (e, p))) ↦
        let h = again m.heap top rest g p in
        let first = again-Shrinks m.heap top rest g p in
        let k₀ = its.key top.iter in
        let (skipped, done) =
          skip_equal-lem (heap_size h) k₀ h (omega arith) first.good (λ index k v x.
            let (n, (j, (_, r))) = first.back index k v x in
            le_trans k₀ (its.key n.iter) k (p.least n j).0 (head_le m.heap n k v g j r)) in
        let all = Shrinks-trans k₀ m.heap h _ first skipped in
        let rest_out =
          yielded-Yields fuel
            (record {
              heap = skip_equal (heap_size h) k₀ h;
              current = some (k₀, its.value top.iter);
            })
            (omega (arith, skipped.size, again-size m.heap top rest g p)) all.good in
        subst (Yields m.heap) (sym (yielded-step fuel m top rest e))
          (step-Yields m.heap (skip_equal (heap_size h) k₀ h) top rest _ g p all done rest_out)
  ]

  -- What the first iterator with a key has under it.
  abbrev pub first_with : Key → List I → Option Value
  first_with k [] = none
  first_with k (i ∷ is) = elim (get (its.remaining i) k) [
    | none ↦ first_with k is
    | some v ↦ some v
  ]

  -- All items of some iterators.
  abbrev pub total : List I → ℕ
  total [] = 0
  total (i ∷ is) = length (its.remaining i) + total is

  heap_of-size : (base : ℕ) (is : List I) → heap_size (heap_of base is) ≡ total is
  unfolding heap_of push_valid
  heap_of-size base [] = refl
  heap_of-size base (i ∷ is) = elim (Bool-cases (its.valid i)) [
    | inl v ↦ rw v (omega (arith, heap_of-size (base + 1) is))
    | inr v ↦ rw v (omega (arith, heap_of-size (base + 1) is, ap length (no_items i v)))
  ]

  heap_of-Good :
      (base : ℕ) (is : List I) → All (λ i. IsSorted (its.remaining i)) is → Good (heap_of base is)
  unfolding heap_of
  heap_of-Good base [] s n i = absurd (elim i [ ])
  heap_of-Good base (x ∷ is) s n i = elim (pushed-In n _ (heap_of (base + 1) is) i) [
    | inr j ↦ heap_of-Good (base + 1) is s.1 n j
    | inl (e, v) ↦ subst (λ n. (its.valid n.iter ≡ true) × IsSorted (rem n)) (sym e) (v, s.0)
  ]

  heap_of-index :
      (base : ℕ) (is : List I) (n : HeapNode I) → In n (heap_of base is) → base ≤ n.index
  unfolding heap_of
  heap_of-index base [] n i = absurd (elim i [ ])
  heap_of-index base (x ∷ is) n i = elim (pushed-In n _ (heap_of (base + 1) is) i) [
    | inr j ↦ omega (arith, heap_of-index (base + 1) is n j)
    | inl (e, v) ↦ omega (arith, ap (λ n. n.index) e)
  ]

  Has-later :
      (base : ℕ) (x : I) (is : List I) (index : ℕ) (k : Key) (v : Value)
      → Has (heap_of (base + 1) is) index k v
      → Has (heap_of base (x ∷ is)) index k v
  unfolding heap_of
  Has-later base x is index k v (n, (i, q)) =
      (n, (In-pushed n _ (heap_of (base + 1) is) (inr i), q))

  -- The node of a first iterator that has the key.
  Has-first :
      (base : ℕ) (x : I) (is : List I) (k : Key) (w : Value)
      → get (its.remaining x) k ≡ some w
      → Has (heap_of base (x ∷ is)) base k w
  unfolding heap_of
  Has-first base x is k w q = elim (Bool-cases (its.valid x)) [
    | inl valid ↦
        let n : HeapNode I = record { iter = x; index = base } in
        (n, (In-pushed n n (heap_of (base + 1) is) (inl (refl, valid)), (refl, q)))
    | inr empty ↦ absurd (no_get k w (its.remaining x) (no_items x empty) q)
  ]

  Has-cases :
      (base : ℕ) (x : I) (is : List I) (index : ℕ) (k : Key) (v : Value)
      → Has (heap_of base (x ∷ is)) index k v
      → ((index ≡ base) × (get (its.remaining x) k ≡ some v))
        ⊎ (Has (heap_of (base + 1) is) index k v × (base < index))
  unfolding heap_of
  Has-cases base x is index k v (n, (i, (at, q))) = elim (pushed-In n _ (heap_of (base + 1) is) i) [
    | inl (e, _) ↦ inl (sym at ∙ ap (λ n. n.index) e, subst (λ n. get (rem n) k ≡ some v) e q)
    | inr j ↦ inr ((n, (j, (at, q))), omega (arith, at, heap_of-index (base + 1) is n j))
  ]

  Best-later :
      (base : ℕ) (x : I) (is : List I) (k : Key) (o : Option Value)
      → get (its.remaining x) k ≡ none
      → Best (heap_of base (x ∷ is)) k o
      → Best (heap_of (base + 1) is) k o
  Best-later base x is k none absent b = λ index v h. b index v (Has-later base x is index k v h)
  Best-later base x is k (some v) absent (index, (h, least)) =
      elim (Has-cases base x is index k v h) [
        | inl (_, q) ↦ absurd cc
        | inr (later, _) ↦ (index, (later, λ j w g. least j w (Has-later base x is j k w g)))
      ]

  Best-now :
      (base : ℕ) (x : I) (is : List I) (k : Key) (w : Value) (o : Option Value)
      → get (its.remaining x) k ≡ some w
      → Best (heap_of base (x ∷ is)) k o
      → o ≡ some w
  Best-now base x is k w none there b = absurd (b base w (Has-first base x is k w there))
  Best-now base x is k w (some v) there (index, (h, least)) =
      elim (Has-cases base x is index k v h) [
        | inl (_, q) ↦ sym q ∙ there
        | inr (_, lt) ↦
            let le = least base w (Has-first base x is k w there) in absurd (omega arith)
      ]

  Best-first :
      (base : ℕ) (is : List I) (k : Key) (o : Option Value)
      → Best (heap_of base is) k o
      → o ≡ first_with k is
  unfolding heap_of
  Best-first base [] k none b = refl
  Best-first base [] k (some v) (index, ((n, (i, _)), _)) = absurd (elim i [ ])
  Best-first base (x ∷ is) k o b = elim (Option-cases (get (its.remaining x) k)) [
    | inl absent ↦
        Best-first (base + 1) is k o (Best-later base x is k o absent b)
        ∙ ap (λ a. elim a [ none ↦ first_with k is | some v ↦ some v ]) (sym absent)
    | inr (w, there) ↦
        Best-now base x is k w o there b
        ∙ ap (λ a. elim a [ none ↦ first_with k is | some v ↦ some v ]) (sym there)
  ]

  -- If each iterator has its items in ascending order of keys, then the merge ends within as many
  -- items as there are, yields ascending keys, and under each key the value of the first iterator
  -- that has it.
  pub yielded-new :
      (is : List I)
      → All (λ i. IsSorted (its.remaining i)) is
      → IsSorted (yielded (suc (total is)) (new is))
        × ((k : Key) → get (yielded (suc (total is)) (new is)) k ≡ first_with k is)
  yielded-new is s =
      let (sorted, _, best) =
        yielded-Yields (suc (total is)) (record { heap = heap_of 0 is; current = none })
          (omega (arith, heap_of-size 0 is)) (heap_of-Good 0 is s) in
      (sorted, λ k. Best-first 0 is k _ (best k))
