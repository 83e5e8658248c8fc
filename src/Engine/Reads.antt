-- ===== src/Engine/Reads.antt =====
-- Which tables a search reads.
use flash_store.Prelude.{ℕ, ◌<◌, ◌≡◌, refl, ap₂, List, [], ◌∷◌, ◌++◌, Option, arith, All}
use mathlib.Core.List.{reverse, reverse_aux}
use flash_store.Manifest.{FileMetaData, Levels}
use flash_store.Manifest.Versions.{Below}
use flash_store.Tables.{Tables}
use flash_store.Types.{Key}
use flash_store.Engine.Search.{or_else, search_files, in_range, search_levels, search_version}
use flash_store.Engine.Flushing.{update_file}

module _ {ℓ} {A : Type ℓ} where
  reverse_aux-append :
      (xs : List A) (y : A) (r : List A) → reverse_aux (xs ++ y ∷ []) r ≡ y ∷ reverse_aux xs r
  reverse_aux-append [] y r = refl
  reverse_aux-append (x ∷ xs) y r = reverse_aux-append xs y (x ∷ r)

  pub reverse-snoc : (xs : List A) (y : A) → reverse (xs ++ y ∷ []) ≡ y ∷ reverse xs
  reverse-snoc xs y = reverse_aux-append xs y []

  All-reverse_aux {κ} :
      (P : A → Type κ) (xs r : List A) → All P xs → All P r → All P (reverse_aux xs r)
  All-reverse_aux P [] r h k = k
  All-reverse_aux P (x ∷ xs) r h k = All-reverse_aux P xs (x ∷ r) h.1 (h.0, k)

  pub All-reverse {κ} : (P : A → Type κ) (xs : List A) → All P xs → All P (reverse xs)
  All-reverse P xs h = All-reverse_aux P xs [] h tt

All-in_range :
    (P : FileMetaData → Type 0) (k : Key) (fs : List FileMetaData)
    → All P fs
    → All P (in_range k fs)
unfolding in_range
All-in_range P k [] h = tt
All-in_range P k (f ∷ fs) h = ground (arith, All-in_range P k fs)

module _ {Table : Type 0} ⦃tables : Tables Table⦄ (files : ℕ → Option Table) (n : ℕ)
    (t : Table) where
  search_files-update :
      (k : Key) (fs : List FileMetaData)
      → Below n fs
      → search_files (update_file files n t) k fs ≡ search_files files k fs
  unfolding search_files
  search_files-update k [] h = refl
  search_files-update k (f ∷ fs) h = ground (arith, search_files-update k fs h.1)

  search_levels-update :
      (k : Key) (ls : Levels)
      → All (Below n) ls
      → search_levels (update_file files n t) k ls ≡ search_levels files k ls
  unfolding search_levels
  search_levels-update k [] h = refl
  search_levels-update k (l ∷ ls) h =
      ap₂ or_else
        (search_files-update k (in_range k l) (All-in_range (λ f. f.file_number < n) k l h.0))
        (search_levels-update k ls h.1)

  -- A table with a new number is not seen by a search of the files so far.
  pub search_version-update :
      (k : Key) (ls : Levels)
      → All (Below n) ls
      → search_version (update_file files n t) k ls ≡ search_version files k ls
  unfolding search_version
  search_version-update k [] h = refl
  search_version-update k (l ∷ ls) h =
      ap₂ or_else (search_files-update k (reverse l) (All-reverse (λ f. f.file_number < n) l h.0))
        (search_levels-update k ls h.1)
