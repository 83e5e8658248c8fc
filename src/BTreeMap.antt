-- ===== src/BTreeMap.antt =====
-- `std::collections::BTreeMap` with byte strings for keys: an association list in key order.
pub mod Laws
use Prim.Native.Nat.Ordering.{lt, eq, gt}
use flash_store.Prelude.{List, [], ◌∷◌, map, Option, none, some, if◌then◌else◌}
use flash_store.Bytes.{Bytes, cmp, key_eq}

abbrev pub BTreeMap {ℓ} : Type ℓ → Type ℓ
BTreeMap V = List (Bytes × V)

module _ {ℓ} {V : Type ℓ} where
  unfoldable pub get : BTreeMap V → Bytes → Option V
  get [] k = none
  get ((j, v) ∷ m) k = if key_eq k j then some v else get m k

  unfoldable pub insert : BTreeMap V → Bytes → V → BTreeMap V
  insert [] k v = (k, v) ∷ []
  insert ((j, w) ∷ m) k v = elim (cmp k j) [
    | lt ↦ (k, v) ∷ (j, w) ∷ m
    | eq ↦ (k, v) ∷ m
    | gt ↦ (j, w) ∷ insert m k v
  ]

  abbrev pub values : BTreeMap V → List V
  values [] = []
  values ((j, v) ∷ m) = v ∷ values m
