-- ===== src/Tests/Memtable.antt =====
-- The results on src/memtable/mod.rs at concrete inputs.
use flash_store.Prelude.{◌≡◌, [], some, none, if◌then◌else◌}
use flash_store.Bytes.{key_eq}
use flash_store.Memtable
use flash_store.Memtable.{MemTable}
use flash_store.Memtable.Laws.{get-write}
use flash_store.Memtable.Size.{IsValid, new-IsValid, write-IsValid}
use flash_store.Tests.Types.{key_a, key_b}

abbrev pub one_entry : MemTable
one_entry = Memtable.put (Memtable.new 1) key_a key_b 1

pub one_entry-IsValid : IsValid one_entry
one_entry-IsValid = (write-IsValid (Memtable.new 1) key_a key_b 1 (new-IsValid 1)).0

get-write_example :
    (Memtable.get (Memtable.put one_entry key_b key_a 2) key_a
      ≡ (if key_eq key_a key_b then some (some key_a) else Memtable.get one_entry key_a))
    × (Memtable.get (Memtable.delete one_entry key_b 2) key_a
        ≡ (if key_eq key_a key_b then some none else Memtable.get one_entry key_a))
get-write_example = get-write one_entry key_b key_a 2 key_a

write-IsValid_example :
    IsValid (Memtable.put one_entry key_a [] 2) × IsValid (Memtable.delete one_entry key_a 2)
write-IsValid_example = write-IsValid one_entry key_a [] 2 one_entry-IsValid
