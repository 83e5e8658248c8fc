-- ===== src/Memtable/Laws.antt =====
-- Reads of a memtable after its writes.
use flash_store.Prelude.{ℕ, ◌≡◌, none, some, arith, if◌then◌else◌}
use flash_store.Bytes.{key_eq}
use flash_store.BTreeMap.Laws.{get-insert}
use flash_store.Types.{Key, Value, Entry}
use flash_store.Memtable.{MemTable, put, delete, get, insert_entry, answer}

pub get-insert_entry :
    (m : MemTable) (e : Entry) (j : Key)
    → get (insert_entry m e) j ≡ (if key_eq j e.key then some (answer e) else get m j)
unfolding get insert_entry
get-insert_entry m e j = ground (arith, get-insert m.table.map e.key e j)

-- A read of a memtable after `put` or `delete` sees that write at its key, and the old answer at
-- any other key.
pub get-write :
    (m : MemTable) (k : Key) (v : Value) (seq : ℕ) (j : Key)
    → (get (put m k v seq) j ≡ (if key_eq j k then some (some v) else get m j))
      × (get (delete m k seq) j ≡ (if key_eq j k then some none else get m j))
unfolding put delete
get-write m k v seq j = (get-insert_entry m _ j, get-insert_entry m _ j)
