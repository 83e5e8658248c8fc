-- ===== src/Tables.antt =====
-- What the engine and the compactor need of a table file: it is built from entries in key order,
-- and answers lookups and scans by them.
use flash_store.Prelude.{ℕ, ◌≡◌, Bool, true, List, Option, none, some}
use flash_store.Error.{Result, ok}
use flash_store.Types.{Key, Value, Entry}
use flash_store.Memtable.{answer}
use flash_store.Sstable.Block.Search.{IsSorted, find}

abbrev pub answer_of : Option Entry → Option (Option Value)
answer_of none = none
answer_of (some e) = some (answer e)

pub record Tables (Table : Type 0) : Type 0 where
  -- `TableBuilder::new`, `add` for each entry, `finish`: the file and its size.
  pub build : List Entry → Table × ℕ
  -- `TableReader::open_with_cache` and `get`
  pub lookup : Table → Key → Result (Option (Option Value))
  -- `TableReader::open` and `read_all_entries`
  pub read_all : Table → Result (List Entry)
  -- The entries that the format can hold.
  pub fits : List Entry → Bool
  pub lookup-build :
      (es : List Entry) (k : Key)
      → IsSorted es
      → fits es ≡ true
      → lookup (build es).0 k ≡ ok (answer_of (find k es))
  pub read_all-build :
      (es : List Entry) → IsSorted es → fits es ≡ true → read_all (build es).0 ≡ ok es
