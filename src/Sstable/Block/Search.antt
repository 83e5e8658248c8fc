-- ===== src/Sstable/Block/Search.antt =====
-- The binary search of `Block::get_by_key` on entries in key order.
use flash_store.Prelude.{
  ℕ, zero, suc, ◌+◌, ◌-◌, ◌/◌, ◌≤◌, ◌≡◌, refl, ap, ◌∙◌, List, [], ◌∷◌, Option, none, some, length,
  get_elem?, ltb, if◌then◌else◌, arith, Bool-cases, inl, inr, All, ltb→lt, ltb→le, All-get_elem?,
  get_elem?-some,
}
use mathlib.Core.Option.{some-injective}
use flash_store.Bytes.{cmp_swap, lt_trans, key_lt, key_eq, ◌≺◌}
use flash_store.Types.{Entry, Key}
use flash_store.Sstable.Block.{lower_bound, entry_with_key}

-- Strictly ascending keys.
abbrev pub IsSorted : List Entry → Type 0
IsSorted [] = Unit
IsSorted (e ∷ es) = All (λ f. e.key ≺ f.key) es × IsSorted es

-- The entry of a key, by a scan.
unfoldable pub find : Key → List Entry → Option Entry
find k [] = none
find k (e ∷ es) = if key_eq e.key k then some e else find k es

-- The number of entries whose key is below `k`.
rank : Key → List Entry → ℕ
rank k [] = 0
rank k (e ∷ es) = if key_lt e.key k then suc (rank k es) else 0

rank-le : (k : Key) (es : List Entry) → rank k es ≤ length es
unfolding rank
rank-le k [] = omega arith
rank-le k (e ∷ es) = ground (arith, rank-le k es)

-- In a sorted list an entry is below `k` exactly if its index is below the rank.
key_lt-iff_rank :
    (k : Key) (es : List Entry) (i : ℕ) (e : Entry)
    → IsSorted es
    → get_elem? es i ≡ some e
    → key_lt e.key k ≡ ltb i (rank k es)
unfolding rank
key_lt-iff_rank k [] i e s h = cc
key_lt-iff_rank k (f ∷ es) zero e s h = rw (← some-injective f e h) (ground arith)
key_lt-iff_rank k (f ∷ es) (suc i) e s h = ground (
  arith,
  key_lt-iff_rank k es i e s.1 h,
  All-get_elem? (λ g. f.key ≺ g.key) es i e h s.0,
  lt_trans f.key e.key k,
)

-- The loop ends at the rank, if it lies between the bounds and there is a round for each index.
lower_bound-eq-rank :
    (k : Key) (es : List Entry) (get : ℕ → Option Entry) (fuel low high : ℕ)
    → IsSorted es
    → ((i : ℕ) → get i ≡ get_elem? es i)
    → high ≤ length es
    → high ≤ low + fuel
    → low ≤ rank k es
    → rank k es ≤ high
    → lower_bound get k fuel low high ≡ rank k es
unfolding lower_bound
lower_bound-eq-rank k es get zero low high s g n h p q = omega arith
lower_bound-eq-rank k es get (suc fuel) low high s g n h p q =
    let mid = low + (high - low) / 2 in
    elim (Bool-cases (ltb low high)) [
      | inl more ↦
          let (e, at) = get_elem?-some es mid (omega (arith, ltb→lt low high more)) in
          let test = key_lt-iff_rank k es mid e s at in
          rw more (
            rw (g mid ∙ at) (elim (Bool-cases (ltb mid (rank k es))) [
              | inl below ↦ rw (test ∙ below) (
                  lower_bound-eq-rank k es get fuel (mid + 1) high s g n (omega arith)
                    (omega (arith, ltb→lt mid (rank k es) below)) q)
              | inr above ↦ rw (test ∙ above) (
                  lower_bound-eq-rank k es get fuel low mid s g
                    (omega (arith, ltb→lt low high more)) (omega (arith, ltb→lt low high more)) p
                    (ltb→le mid (rank k es) above))
            ]))
      | inr done ↦ rw done (omega (arith, ltb→le low high done))
    ]

pub find_above :
    (k : Key) (e : Entry) (es : List Entry)
    → All (λ f. e.key ≺ f.key) es
    → k ≺ e.key
    → find k es ≡ none
unfolding find
find_above k e [] h low = refl
find_above k e (f ∷ es) h low =
    ground (arith, find_above k e es h.1, lt_trans k e.key f.key low h.0, cmp_swap k f.key)

-- The test at the rank finds what a scan finds.
entry_at_rank :
    (k : Key) (es : List Entry) (get : ℕ → Option Entry)
    → IsSorted es
    → ((i : ℕ) → get i ≡ get_elem? es i)
    → entry_with_key get k (length es) (rank k es) ≡ find k es
unfolding entry_with_key find rank
entry_at_rank k [] get s g = refl
entry_at_rank k (e ∷ es) get s g = ground (
  arith,
  entry_at_rank k es (λ i. get (suc i)) s.1 (λ i. g (suc i)),
  g 0,
  cmp_swap e.key k,
  find_above k e es s.0,
)

-- On entries with strictly ascending keys the loop and the test behind it find the entry of the
-- key, and nothing if no entry has that key.
pub search-eq-find :
    (k : Key) (es : List Entry) (get : ℕ → Option Entry)
    → IsSorted es
    → ((i : ℕ) → get i ≡ get_elem? es i)
    → entry_with_key get k (length es) (lower_bound get k (length es) 0 (length es)) ≡ find k es
search-eq-find k es get s g =
    ap (entry_with_key get k (length es)) (
      lower_bound-eq-rank k es get (length es) 0 (length es) s g (omega arith) (omega arith)
        (omega arith) (rank-le k es))
    ∙ entry_at_rank k es get s g
