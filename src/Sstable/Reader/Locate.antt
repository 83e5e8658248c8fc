-- ===== src/Sstable/Reader/Locate.antt =====
-- The block that the binary search over the first keys names holds the key, if any block does.
use flash_store.Prelude.{
  ℕ, suc, ◌≡◌, refl, ap, ◌∙◌, List, [], ◌∷◌, ◌++◌, none, some, get_elem?, arith, true, false, All,
  All-left, All-right, append-nil, Bool-cases, inl, inr, if◌then◌else◌,
}
use flash_store.Bytes.{key_le, cmp_swap, eq_of_cmp, lt_trans, ◌≺◌}
use flash_store.Sstable.Block.Search.{IsSorted, find, find_above}
use flash_store.Sstable.Builder.Layout.{concat, heads, NonEmpty}
use flash_store.Sstable.Reader.{binary_search, insertion_point, block_idx}
use flash_store.Types.{Key, Entry}

-- Strictly ascending keys.
abbrev pub Ascending : List Key → Type 0
Ascending [] = Unit
Ascending (k ∷ ks) = All (λ j. k ≺ j) ks × Ascending ks

idx : List Key → Key → ℕ
idx keys k = block_idx (binary_search keys k)

-- The index moves on exactly while the next first key is not above the key.
idx-next :
    (h j : Key) (js : List Key) (k : Key)
    → Ascending (h ∷ j ∷ js)
    → key_le j k ≡ true
    → idx (h ∷ j ∷ js) k ≡ suc (idx (j ∷ js) k)
unfolding idx binary_search insertion_point
idx-next h j js k a le = ground (arith, lt_trans h j k, eq_of_cmp j k, cmp_swap j k, cmp_swap h k)

idx-only : (h k : Key) → idx (h ∷ []) k ≡ 0
unfolding idx binary_search insertion_point
idx-only h k = ground (arith, cmp_swap h k)

idx-stop :
    (h j : Key) (js : List Key) (k : Key)
    → Ascending (h ∷ j ∷ js)
    → key_le j k ≡ false
    → idx (h ∷ j ∷ js) k ≡ 0
unfolding idx binary_search insertion_point
idx-stop h j js k a le = ground (arith, cmp_swap j k, cmp_swap h k, eq_of_cmp h k, eq_of_cmp j k)

All-heads :
    (k : Key) (bs : List (List Entry))
    → All (λ f. k ≺ f.key) (concat bs)
    → All (λ j. k ≺ j) (heads bs)
All-heads k [] h = tt
All-heads k ([] ∷ bs) h = All-heads k bs h
All-heads k ((e ∷ es) ∷ bs) h =
    (h.0, All-heads k bs (All-right (λ f. k ≺ f.key) es (concat bs) h.1))

-- The parts of a sorted list are sorted, and each entry of the first is below those of the second.
pub IsSorted-left : (xs ys : List Entry) → IsSorted (xs ++ ys) → IsSorted xs
IsSorted-left [] ys h = tt
IsSorted-left (x ∷ xs) ys h = (All-left (λ f. x.key ≺ f.key) xs ys h.0, IsSorted-left xs ys h.1)

pub IsSorted-right : (xs ys : List Entry) → IsSorted (xs ++ ys) → IsSorted ys
IsSorted-right [] ys h = h
IsSorted-right (x ∷ xs) ys h = IsSorted-right xs ys h.1

heads-Ascending : (bs : List (List Entry)) → IsSorted (concat bs) → Ascending (heads bs)
heads-Ascending [] h = tt
heads-Ascending ([] ∷ bs) h = heads-Ascending bs h
heads-Ascending ((e ∷ es) ∷ bs) h = (
  All-heads e.key bs (All-right (λ f. e.key ≺ f.key) es (concat bs) h.0),
  heads-Ascending bs (IsSorted-right es (concat bs) h.1),
)

-- The last block whose first key is not above the key, or the first one.
pub choose : Key → List Entry → List (List Entry) → List Entry
choose k b [] = b
choose k b ([] ∷ bs) = b
choose k b ((e ∷ es) ∷ bs) = let later = choose k (e ∷ es) bs in if key_le e.key k then later else b

find-skip :
    (k : Key) (xs ys : List Entry) (e : Entry)
    → IsSorted (xs ++ e ∷ ys)
    → key_le e.key k ≡ true
    → find k (xs ++ e ∷ ys) ≡ find k (e ∷ ys)
unfolding find
find-skip k [] ys e s le = refl
find-skip k (x ∷ xs) ys e s le =
    let below : x.key ≺ e.key = (All-right (λ f. x.key ≺ f.key) xs (e ∷ ys) s.0).0 in
    ground (
      arith,
      find-skip k xs ys e s.1 le,
      lt_trans x.key e.key k,
      eq_of_cmp x.key k,
      eq_of_cmp e.key k,
      cmp_swap e.key k,
      cmp_swap x.key e.key,
    )

find-front : (k : Key) (xs ys : List Entry) → find k ys ≡ none → find k (xs ++ ys) ≡ find k xs
unfolding find
find-front k [] ys h = h
find-front k (x ∷ xs) ys h = ground (arith, find-front k xs ys h)

find-none_above :
    (k : Key) (e : Entry) (es : List Entry)
    → IsSorted (e ∷ es)
    → key_le e.key k ≡ false
    → find k (e ∷ es) ≡ none
unfolding find
find-none_above k e es s le = ground (arith, find_above k e es s.0, cmp_swap e.key k)

-- The chosen block decides the lookup among all blocks.
find-choose :
    (k : Key) (b : List Entry) (bs : List (List Entry))
    → IsSorted (b ++ concat bs)
    → All NonEmpty bs
    → find k (b ++ concat bs) ≡ find k (choose k b bs)
unfolding choose
find-choose k b [] s n = ap (find k) (append-nil b)
find-choose k b ([] ∷ bs) s n = elim n.0 [ ]
find-choose k b ((e ∷ es) ∷ bs) s n = elim (Bool-cases (key_le e.key k)) [
  | inl le ↦ rw le (
      find-skip k b (es ++ concat bs) e s le ∙ find-choose k (e ∷ es) bs (IsSorted-right b _ s) n.1)
  | inr above ↦
      rw above
        (find-front k b _ (find-none_above k e (es ++ concat bs) (IsSorted-right b _ s) above))
]

get_elem?-choose :
    (k : Key) (x : Entry) (xs : List Entry) (bs : List (List Entry))
    → Ascending (heads ((x ∷ xs) ∷ bs))
    → All NonEmpty bs
    → get_elem? ((x ∷ xs) ∷ bs) (idx (heads ((x ∷ xs) ∷ bs)) k) ≡ some (choose k (x ∷ xs) bs)
unfolding choose
get_elem?-choose k x xs [] a n = rw (idx-only x.key k) refl
get_elem?-choose k x xs ([] ∷ bs) a n = elim n.0 [ ]
get_elem?-choose k x xs ((e ∷ es) ∷ bs) a n = elim (Bool-cases (key_le e.key k)) [
  | inl le ↦
      rw le (rw (idx-next x.key e.key (heads bs) k a le) (get_elem?-choose k e es bs a.1 n.1))
  | inr above ↦ rw above (rw (idx-stop x.key e.key (heads bs) k a above) refl)
]

-- The block at the index that `get` computes exists, and decides the lookup among all blocks.
pub get_elem?-block_idx :
    (bs : List (List Entry)) (k : Key) (b0 : List Entry) (rest : List (List Entry))
    → bs ≡ b0 ∷ rest
    → IsSorted (concat bs)
    → All NonEmpty bs
    → (b : List Entry) × (get_elem? bs (block_idx (binary_search (heads bs) k)) ≡ some b)
      × (find k (concat bs) ≡ find k b)
unfolding idx
get_elem?-block_idx [] k b0 rest e s n = cc
get_elem?-block_idx ([] ∷ bs) k b0 rest e s n = elim n.0 [ ]
get_elem?-block_idx ((x ∷ xs) ∷ bs) k b0 rest e s n = (
  choose k (x ∷ xs) bs,
  get_elem?-choose k x xs bs (heads-Ascending ((x ∷ xs) ∷ bs) s) n.1,
  find-choose k (x ∷ xs) bs s n.1,
)
