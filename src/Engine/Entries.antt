-- ===== src/Engine/Entries.antt =====
-- The entries of a memtable in key order, and its answers by them.
use flash_store.Prelude.{◌≡◌, refl, [], ◌∷◌, length, arith, All}
use flash_store.Bytes.{Bytes, key_eq, cmp_swap, ◌≺◌}
use flash_store.BTreeMap
use flash_store.BTreeMap.{BTreeMap, values}
use flash_store.BTreeMap.Laws.{AllAbove}
use flash_store.Memtable
use flash_store.Memtable.{MemTable, answer}
use flash_store.Memtable.Iteration.{drain-iter}
use flash_store.Memtable.Size.{IsKeyed}
use flash_store.Sstable.Block.Search.{IsSorted, find}
use flash_store.Tables.{answer_of}
use flash_store.Types.{Key, Entry}
use flash_store.Engine.Flushing.{entries_of}

-- The entries of a memtable, and its answers by them.
pub entries_of-values : (m : MemTable) → entries_of m ≡ values m.table.map
entries_of-values m = drain-iter m (length m.table.map) (omega arith)

All-values :
    (k : Bytes) (m : BTreeMap Entry) → IsKeyed m → AllAbove k m → All (λ f. k ≺ f.key) (values m)
All-values k [] h a = tt
All-values k ((j, e) ∷ m) h a = (rw h.0 a.0, All-values k m h.1 a.1)

pub values-IsSorted :
    (m : BTreeMap Entry) → IsKeyed m → BTreeMap.Laws.IsSorted m → IsSorted (values m)
values-IsSorted [] h s = tt
values-IsSorted ((j, e) ∷ m) h s = (rw h.0 (All-values j m h.1 s.0), values-IsSorted m h.1 s.1)

key_eq_sym : (a b : Bytes) → key_eq a b ≡ key_eq b a
key_eq_sym a b = ground (arith, cmp_swap a b)

pub get-find : (m : BTreeMap Entry) (k : Key) → IsKeyed m → BTreeMap.get m k ≡ find k (values m)
unfolding BTreeMap.get find
get-find [] k h = refl
get-find ((j, e) ∷ m) k h = ground (arith, get-find m k h.1, h.0, key_eq_sym j k)

pub memtable_get-find :
    (m : MemTable) (k : Key)
    → IsKeyed m.table.map
    → Memtable.get m k ≡ answer_of (find k (entries_of m))
unfolding Memtable.get
memtable_get-find m k h = rw (entries_of-values m) (ground (arith, get-find m.table.map k h))
