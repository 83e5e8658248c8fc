-- ===== src/Engine/Search.antt =====
-- src/engine.rs: the three parts of `get`: memtables, level 0, the levels below.
use flash_store.Prelude.{ℕ, List, [], ◌∷◌, Option, none, some, if◌then◌else◌}
use mathlib.Core.List.{reverse}
use flash_store.Bytes.{key_lt}
use flash_store.Error.{Result, ok, err}
use flash_store.Manifest.{FileMetaData, Levels}
use flash_store.Memtable
use flash_store.Memtable.{MemTable}
use flash_store.Tables.{Tables}
use flash_store.Types.{Key, Value}

-- The files of a level whose range holds the key.
unfoldable pub in_range : Key → List FileMetaData → List FileMetaData
in_range k [] = []
in_range k (f ∷ fs) =
    let rest = in_range k fs in
    if key_lt k f.smallest_key then rest else if key_lt f.largest_key k then rest else f ∷ rest

unfoldable pub search_memtables : Key → List MemTable → Option (Option Value)
search_memtables k [] = none
search_memtables k (m ∷ ms) =
    let rest = search_memtables k ms in
    elim (Memtable.get m k) [ none ↦ rest | some res ↦ some res ]

abbrev pub flat : Option (Option Value) → Option Value
flat none = none
flat (some res) = res

-- `if let Some(res) = …? { return Ok(res) }`
unfoldable pub or_else :
    Result (Option (Option Value)) → Result (Option (Option Value)) → Result (Option (Option Value))
or_else (err e) rest = err e
or_else (ok none) rest = rest
or_else (ok (some res)) rest = ok (some res)

module _ {Table : Type 0} ⦃tables : Tables Table⦄ where
  -- The first answer of the tables of a list of files; a missing file is passed over.
  unfoldable pub search_files :
      (ℕ → Option Table) → Key → List FileMetaData → Result (Option (Option Value))
  search_files files k [] = ok none
  search_files files k (f ∷ fs) =
      let rest = search_files files k fs in
      elim (files f.file_number) [ none ↦ rest | some t ↦ or_else (tables.lookup t k) rest ]

  unfoldable pub search_levels : (ℕ → Option Table) → Key → Levels → Result (Option (Option Value))
  search_levels files k [] = ok none
  search_levels files k (l ∷ ls) =
      or_else (search_files files k (in_range k l)) (search_levels files k ls)

  -- Part 3 of `get`: level 0 from the newest file, then the levels below.
  unfoldable pub search_version : (ℕ → Option Table) → Key → Levels → Result (Option (Option Value))
  search_version files k [] = ok none
  search_version files k (l0 ∷ ls) =
      or_else (search_files files k (reverse l0)) (search_levels files k ls)
