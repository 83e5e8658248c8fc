-- ===== src/Iterator/Shrinking.antt =====
-- How the heap of a merge of src/iterator/mod.rs loses items.
use flash_store.Prelude.{
  ℕ, suc, ◌+◌, ◌≤◌, ◌≡◌, refl, ap, sym, ◌∙◌, subst, true, false, [], ◌∷◌, none, some, In, length,
  Bool-cases, inl, inr, ◌⊎◌, arith,
}
use flash_store.BTreeMap.{BTreeMap, get}
use flash_store.BTreeMap.Laws.{IsSorted, AllAbove, get-AllAbove}
use flash_store.Bytes.{key_le, key_eq, cmp_swap, cmp_refl, eq_of_cmp, ◌≺◌}
use flash_store.Types.{Key, Value}
use flash_store.Iterator.{StorageIterator, HeapNode, Heap, push_valid, advanced, heap_size}
use flash_store.Iterator.Heap.{Popped}

pub get-first : (k : Key) (v : Value) (m : BTreeMap Value) → get ((k, v) ∷ m) k ≡ some v
unfolding get
get-first k v m = ground (arith, cmp_refl k)

pub get-later :
    (j k : Key) (v : Value) (m : BTreeMap Value) → key_eq k j ≡ false → get ((j, v) ∷ m) k ≡ get m k
unfolding get
get-later j k v m h = ground (arith, h)

-- What the tail of a sorted map has, the map has.
get-tail :
    (j k : Key) (v w : Value) (m : BTreeMap Value)
    → IsSorted ((j, v) ∷ m)
    → get m k ≡ some w
    → get ((j, v) ∷ m) k ≡ some w
unfolding get
get-tail j k v w m s h = ground (arith, eq_of_cmp k j, get-AllAbove j m s.0, ap (get m), h)

pub AllAbove-lt :
    (j k : Key) (w : Value) (m : BTreeMap Value) → AllAbove j m → get m k ≡ some w → j ≺ k
unfolding get
AllAbove-lt j k w [] a h = absurd cc
AllAbove-lt j k w ((i, x) ∷ m) a h = elim (Bool-cases (key_eq k i)) [
  | inl e ↦ subst (λ y. j ≺ y) (sym (eq_of_cmp k i (ground (arith, e)))) a.0
  | inr other ↦ AllAbove-lt j k w m a.1 (rw other at h)
]

pub get-ge :
    (j k : Key) (v w : Value) (m : BTreeMap Value)
    → AllAbove j m
    → get ((j, v) ∷ m) k ≡ some w
    → key_le j k ≡ true
get-ge j k v w m a h = elim (Bool-cases (key_eq k j)) [
  | inl e ↦ ground (arith, cmp_swap j k, e)
  | inr other ↦ ground (arith, AllAbove-lt j k w m a (sym (get-later j k v m other) ∙ h))
]

pub no_get : (k : Key) (v : Value) (m : BTreeMap Value) → m ≡ [] → get m k ≡ some v → ⊥
unfolding get
no_get k v m e h = let gone : get m k ≡ none = ap (λ m. get m k) e in cc

module _ {I : Type 0} ⦃its : StorageIterator I⦄ where
  abbrev pub rem : HeapNode I → BTreeMap Value
  rem n = its.remaining n.iter

  -- The nodes are valid, and have sorted items.
  abbrev pub Good : Heap I → Type 0
  Good h = (n : HeapNode I) → In n h → (its.valid n.iter ≡ true) × IsSorted (rem n)

  abbrev pub Has : Heap I → ℕ → Key → Value → Type 0
  Has h index k v = (n : HeapNode I) × (In n h × ((n.index ≡ index) × (get (rem n) k ≡ some v)))

  pub head_items :
      (n : HeapNode I)
      → its.valid n.iter ≡ true
      → rem n ≡ (its.key n.iter, its.value n.iter) ∷ rem (advanced n)
  head_items n v = elim (its.remaining-valid n.iter) [
    | inl (no_more, _) ↦ absurd cc
    | inr (_, items) ↦ items
  ]

  -- From a heap to another, with no new items, of which one key may have lost some.
  pub record Shrinks (k₀ : Key) (h h' : Heap I) : Type 0 where
    pub good : Good h'
    pub back : (index : ℕ) (k : Key) (v : Value) → Has h' index k v → Has h index k v
    pub forth :
        (index : ℕ) (k : Key) (v : Value) → key_eq k k₀ ≡ false → Has h index k v → Has h' index k v
    pub size : heap_size h' ≤ heap_size h

  pub Shrinks-refl : (k₀ : Key) (h : Heap I) → Good h → Shrinks k₀ h h
  Shrinks-refl k₀ h g = record {
    good = g;
    back = λ i k v x. x;
    forth = λ i k v e x. x;
    size = omega arith;
  }

  pub Shrinks-trans : (k₀ : Key) (a b c : Heap I) → Shrinks k₀ a b → Shrinks k₀ b c → Shrinks k₀ a c
  Shrinks-trans k₀ a b c p q = record {
    good = q.good;
    back = λ i k v x. p.back i k v (q.back i k v x);
    forth = λ i k v e x. q.forth i k v e (p.forth i k v e x);
    size = omega (arith, p.size, q.size);
  }

  pub pushed-In :
      (n m : HeapNode I) (h : Heap I)
      → In n (push_valid m h)
      → ((n ≡ m) × (its.valid m.iter ≡ true)) ⊎ In n h
  unfolding push_valid
  pushed-In n m h i = elim (Bool-cases (its.valid m.iter)) [
    | inl v ↦ elim (rw v at i) [ inl e ↦ inl (e, v) | inr j ↦ inr j ]
    | inr v ↦ inr (rw v at i)
  ]

  pub In-pushed :
      (n m : HeapNode I) (h : Heap I)
      → ((n ≡ m) × (its.valid m.iter ≡ true)) ⊎ In n h
      → In n (push_valid m h)
  unfolding push_valid
  In-pushed n m h i = elim (Bool-cases (its.valid m.iter)) [
    | inl v ↦ rw v (elim i [ inl e ↦ inl e.0 | inr j ↦ inr j ])
    | inr v ↦ rw v (elim i [ inl e ↦ absurd cc | inr j ↦ j ])
  ]

  pub no_items : (i : I) → its.valid i ≡ false → its.remaining i ≡ []
  no_items i v = elim (its.remaining-valid i) [ inl e ↦ e.1 | inr e ↦ absurd cc ]

  size-push :
      (m : HeapNode I) (h : Heap I) → heap_size (push_valid m h) ≡ length (rem m) + heap_size h
  unfolding push_valid
  size-push m h = elim (Bool-cases (its.valid m.iter)) [
    | inl v ↦ rw v refl
    | inr v ↦ rw v (rw (no_items m.iter v) (omega arith))
  ]

  -- A popped node that is advanced and pushed again.
  module _ (h : Heap I) (top : HeapNode I) (rest : Heap I) (g : Good h)
      (p : Popped h top rest) where
    abbrev pub again : Heap I
    again = push_valid (advanced top) rest

    top_items : rem top ≡ (its.key top.iter, its.value top.iter) ∷ rem (advanced top)
    top_items = head_items top (g top p.top_in).0

    top-IsSorted : IsSorted ((its.key top.iter, its.value top.iter) ∷ rem (advanced top))
    top-IsSorted = subst IsSorted top_items (g top p.top_in).1

    pub again-size : suc (heap_size again) ≡ heap_size h
    again-size = omega (arith, size-push (advanced top) rest, p.size, ap length top_items)

    again-Good : Good again
    again-Good n i = elim (pushed-In n (advanced top) rest i) [
      | inr j ↦ g n (p.rest_in n j)
      | inl (e, v) ↦
          subst (λ n. (its.valid n.iter ≡ true) × IsSorted (rem n)) (sym e) (v, top-IsSorted.1)
    ]

    again-back : (index : ℕ) (k : Key) (v : Value) → Has again index k v → Has h index k v
    again-back index k v (n, (i, (at, q))) = elim (pushed-In n (advanced top) rest i) [
      | inr j ↦ (n, (p.rest_in n j, (at, q)))
      | inl (e, _) ↦
          let tail : get (rem (advanced top)) k ≡ some v =
            subst (λ n. get (rem n) k ≡ some v) e q in
          (
            top,
            (
              p.top_in,
              (
                sym (ap (λ n. n.index) e) ∙ at,
                ap (λ m. get m k) top_items
                    ∙ get-tail (its.key top.iter) k (its.value top.iter) v (rem (advanced top))
                        top-IsSorted tail,
              ),
            ),
          )
    ]

    again-forth :
        (index : ℕ) (k : Key) (v : Value)
        → key_eq k (its.key top.iter) ≡ false
        → Has h index k v
        → Has again index k v
    again-forth index k v other (n, (i, (at, q))) = elim (p.all n i) [
      | inr j ↦ (n, (In-pushed n (advanced top) rest (inr j), (at, q)))
      | inl e ↦
          let tail : get (rem (advanced top)) k ≡ some v =
            sym (get-later (its.key top.iter) k (its.value top.iter) (rem (advanced top)) other)
            ∙ ap (λ m. get m k) (sym top_items)
            ∙ subst (λ n. get (rem n) k ≡ some v) e q in
          elim (Bool-cases (its.valid (its.next top.iter))) [
            | inl valid ↦ (
              advanced top,
              (
                In-pushed (advanced top) (advanced top) rest (inl (refl, valid)),
                (sym (ap (λ n. n.index) e) ∙ at, tail),
              ),
            )
            | inr empty ↦
                absurd (no_get k v (rem (advanced top)) (no_items (its.next top.iter) empty) tail)
          ]
    ]

    pub again-Shrinks : Shrinks (its.key top.iter) h again
    again-Shrinks = record {
      good = again-Good;
      back = again-back;
      forth = again-forth;
      size = omega (arith, again-size);
    }
