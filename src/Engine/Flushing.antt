-- ===== src/Engine/Flushing.antt =====
-- src/engine.rs: the loops of `flush` over entries, memtables and records.
use flash_store.Prelude.{
  ℕ, List, [], ◌∷◌, ◌++◌, length, Option, some, ltb, leb, ◌==◌, if◌then◌else◌,
}
use flash_store.Memtable
use flash_store.Memtable.{MemTable}
use flash_store.Memtable.Skiplist.{drain}
use flash_store.Types.{Key, Entry}
use flash_store.Wal.Record.{WalRecord, from_entry}

-- The entries of a memtable, by its iterator.
abbrev pub entries_of : MemTable → List Entry
entries_of m = drain (length m.table.map) (Memtable.iter m)

-- The loop of `flush` over the entries: smallest key, largest key, highest sequence number.
abbrev pub last_key : Key → List Entry → Key
last_key k [] = k
last_key k (e ∷ es) = last_key e.key es

abbrev pub max_seq : ℕ → List Entry → ℕ
max_seq n [] = n
max_seq n (e ∷ es) = max_seq (if ltb n e.seq_no then e.seq_no else n) es

-- `retain(|m| m.id() != id)`
unfoldable pub without_memtable : ℕ → List MemTable → List MemTable
without_memtable id [] = []
without_memtable id (m ∷ ms) =
    let rest = without_memtable id ms in if m.id == id then rest else m ∷ rest

abbrev pub records_of : List Entry → List WalRecord
records_of [] = []
records_of (e ∷ es) = from_entry e ∷ records_of es

abbrev pub records_of_all : List MemTable → List WalRecord
records_of_all [] = []
records_of_all (m ∷ ms) = records_of (entries_of m) ++ records_of_all ms

-- The stable `sort_by_key(|r| r.seq_no)`.
unfoldable pub insert_by_seq : WalRecord → List WalRecord → List WalRecord
insert_by_seq r [] = r ∷ []
insert_by_seq r (s ∷ rs) = if leb r.seq_no s.seq_no then r ∷ s ∷ rs else s ∷ insert_by_seq r rs

unfoldable pub sort_by_seq : List WalRecord → List WalRecord
sort_by_seq [] = []
sort_by_seq (r ∷ rs) = insert_by_seq r (sort_by_seq rs)

abbrev pub update_file {ℓ} : {A : Type ℓ} → (ℕ → Option A) → ℕ → A → ℕ → Option A
update_file files n t m = if n == m then some t else files m
