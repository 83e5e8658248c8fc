-- ===== src/Tests/Iterator.antt =====
-- The result on src/iterator/mod.rs at a concrete input.
use flash_store.Prelude.{◌≡◌, suc, [], ◌∷◌, List, All, refl}
use flash_store.BTreeMap.{get}
use flash_store.BTreeMap.Laws.{IsSorted}
use flash_store.Iterator.{SstableIterator, yielded, new}
use flash_store.Iterator.Sources.{sstable_source, sstable-IsSorted}
use flash_store.Iterator.Yield.{yielded-new, first_with, total}
use flash_store.Types.{Key, Entry, new_value}
use flash_store.Tests.Types.{key_a, key_b}

abbrev upper : List Entry
upper = new_value key_a key_b 3 ∷ new_value key_b key_b 4 ∷ []

abbrev lower : List Entry
lower = new_value key_b key_a 1 ∷ []

abbrev two_tables : List SstableIterator
two_tables = record { entries = upper; index = 0 } ∷ record { entries = lower; index = 0 } ∷ []

two_tables-IsSorted : All (λ i. IsSorted (sstable_source.remaining i)) two_tables
unfolding flash_store.Bytes.cmp
two_tables-IsSorted =
    (sstable-IsSorted upper ((refl, tt), (tt, tt)), (sstable-IsSorted lower (tt, tt), tt))

yielded-new_example :
    IsSorted (yielded (suc (total two_tables)) (new two_tables))
    × ((k : Key)
        → get (yielded (suc (total two_tables)) (new two_tables)) k ≡ first_with k two_tables)
yielded-new_example = yielded-new two_tables two_tables-IsSorted
