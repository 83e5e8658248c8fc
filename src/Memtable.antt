-- ===== src/Memtable.antt =====
-- src/memtable/mod.rs: the buffer of recent writes. Locks and atomics, used by one thread, are
-- plain state; `size_bytes` is a 64-bit `usize` and wraps.
pub mod Skiplist
pub mod Laws
pub mod Size
pub mod Iteration
use flash_store.Prelude.{ℕ, ◌+◌, ◌-◌, ◌%◌, ◌^◌, Bool, List, Option, none, some, ltb, if◌then◌else◌}
use flash_store.Types.{Key, Value, Entry, new_value, new_tombstone, estimated_size, is_tombstone}
use Skiplist.{SkipList, SkipListIter}

pub record MemTable : Type 0 where
  pub id : ℕ
  pub table : SkipList
  pub size_bytes : ℕ

abbrev pub new : ℕ → MemTable
new id = record { id = id; table = Skiplist.new; size_bytes = 0 }

-- `fetch_add` and `fetch_sub` wrap around.
unfoldable pub update_size_bytes : ℕ → ℕ → ℕ → ℕ
update_size_bytes size new_size old_size =
    if ltb old_size new_size
    then (size + (new_size - old_size)) % 2 ^ 64
    else if ltb new_size old_size
    then (size + (2 ^ 64 - (old_size - new_size) % 2 ^ 64)) % 2 ^ 64
    else size

abbrev pub unwrap_or_zero : Option ℕ → ℕ
unwrap_or_zero none = 0
unwrap_or_zero (some n) = n

-- The common body of `put` and `delete`.
unfoldable pub insert_entry : MemTable → Entry → MemTable
unfolding Skiplist.insert
insert_entry m e =
    let (table, old) = Skiplist.insert m.table e in
    record m {
      table = table;
      size_bytes = update_size_bytes m.size_bytes (estimated_size e) (unwrap_or_zero old);
    }

unfoldable pub put : MemTable → Key → Value → ℕ → MemTable
unfolding insert_entry
put m k v seq_no = insert_entry m (new_value k v seq_no)

unfoldable pub delete : MemTable → Key → ℕ → MemTable
unfolding insert_entry
delete m k seq_no = insert_entry m (new_tombstone k seq_no)

abbrev pub is_empty : MemTable → Bool
is_empty m = Skiplist.is_empty m.table

-- What a found entry answers: a tombstone answers `none`.
abbrev pub answer : Entry → Option Value
answer e = if is_tombstone e.value_type then none else some e.value

-- `some (some v)`: the value; `some none`: deleted; `none`: not in this table.
unfoldable pub get : MemTable → Key → Option (Option Value)
unfolding Skiplist.get
get m k = elim (Skiplist.get m.table k) [ none ↦ none | some e ↦ some (answer e) ]

abbrev pub approximate_size : MemTable → ℕ
approximate_size m = m.size_bytes

abbrev pub iter : MemTable → SkipListIter
iter m = Skiplist.iter m.table
