-- ===== src/BTreeMap/Laws.antt =====
-- Reads after writes, and the key order, of `BTreeMap`.
use flash_store.Prelude.{◌≡◌, refl, [], ◌∷◌, none, some, arith, if◌then◌else◌}
use flash_store.Bytes.{Bytes, cmp_refl, eq_of_cmp, cmp_swap, lt_trans, key_eq, ◌≺◌}
use flash_store.BTreeMap.{BTreeMap, get, insert}

module _ {ℓ} {V : Type ℓ} where
  pub get-insert :
      (m : BTreeMap V) (k : Bytes) (v : V) (j : Bytes)
      → get (insert m k v) j ≡ (if key_eq j k then some v else get m j)
  unfolding get insert
  get-insert [] k v j = refl
  get-insert ((i, w) ∷ m) k v j =
      ground (arith, get-insert m k v j, eq_of_cmp k i, eq_of_cmp j k, cmp_refl k)

  -- Every key of the map is above `k`.
  abbrev pub AllAbove : Bytes → BTreeMap V → Type 0
  AllAbove k [] = Unit
  AllAbove k ((j, v) ∷ m) = k ≺ j × AllAbove k m

  abbrev pub IsSorted : BTreeMap V → Type 0
  IsSorted [] = Unit
  IsSorted ((j, v) ∷ m) = AllAbove j m × IsSorted m

  pub AllAbove-trans : (i k : Bytes) (m : BTreeMap V) → i ≺ k → AllAbove k m → AllAbove i m
  AllAbove-trans i k [] h a = tt
  AllAbove-trans i k ((j, v) ∷ m) h a = (lt_trans i k j h a.0, AllAbove-trans i k m h a.1)

  insert-AllAbove :
      (i : Bytes) (m : BTreeMap V) (k : Bytes) (v : V)
      → i ≺ k
      → AllAbove i m
      → AllAbove i (insert m k v)
  unfolding insert
  insert-AllAbove i [] k v h a = (h, tt)
  insert-AllAbove i ((j, w) ∷ m) k v h a = ground (arith, insert-AllAbove i m k v)

  pub insert-IsSorted : (m : BTreeMap V) (k : Bytes) (v : V) → IsSorted m → IsSorted (insert m k v)
  unfolding insert
  insert-IsSorted [] k v h = (tt, tt)
  insert-IsSorted ((j, w) ∷ m) k v h = ground (
    arith,
    insert-IsSorted m k v,
    eq_of_cmp k j,
    cmp_swap k j,
    insert-AllAbove j m k v,
    AllAbove-trans k j m,
  )

  -- A key below all others is not there.
  pub get-AllAbove : (k : Bytes) (m : BTreeMap V) → AllAbove k m → get m k ≡ none
  unfolding get
  get-AllAbove k [] a = refl
  get-AllAbove k ((j, v) ∷ m) a = ground (arith, get-AllAbove k m)
