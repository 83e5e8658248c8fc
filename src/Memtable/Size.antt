-- ===== src/Memtable/Size.antt =====
-- The invariant of a memtable, with the count of its bytes.
use flash_store.Prelude.{ℕ, ◌+◌, ◌%◌, ◌^◌, ◌≡◌, refl, [], ◌∷◌, Option, none, some, arith}
use flash_store.Bytes.{eq_of_cmp, cmp_refl}
use flash_store.BTreeMap
use flash_store.BTreeMap.{BTreeMap}
use flash_store.BTreeMap.Laws.{IsSorted, insert-IsSorted, get-AllAbove, AllAbove-trans}
use flash_store.Types.{Key, Value, Entry, estimated_size}
use flash_store.Memtable.{
  MemTable, new, put, delete, insert_entry, update_size_bytes, unwrap_or_zero,
}

abbrev pub total_size : BTreeMap Entry → ℕ
total_size [] = 0
total_size ((k, e) ∷ m) = estimated_size e + total_size m

abbrev replaced_size : Option Entry → ℕ
replaced_size none = 0
replaced_size (some e) = estimated_size e

total_size-insert :
    (m : BTreeMap Entry) (k : Key) (e : Entry)
    → IsSorted m
    → total_size (BTreeMap.insert m k e) + replaced_size (BTreeMap.get m k)
      ≡ total_size m + estimated_size e
unfolding BTreeMap.insert BTreeMap.get
total_size-insert [] k e h = omega arith
total_size-insert ((j, x) ∷ m) k e h = ground (
  arith,
  total_size-insert m k e,
  get-AllAbove k m,
  AllAbove-trans k j m,
  cmp_refl k,
  eq_of_cmp k j,
)

-- Each entry is stored under its own key.
abbrev pub IsKeyed : BTreeMap Entry → Type 0
IsKeyed [] = Unit
IsKeyed ((k, e) ∷ m) = (e.key ≡ k) × IsKeyed m

pub insert-IsKeyed :
    (m : BTreeMap Entry) (e : Entry) → IsKeyed m → IsKeyed (BTreeMap.insert m e.key e)
unfolding BTreeMap.insert
insert-IsKeyed [] e h = (refl, tt)
insert-IsKeyed ((j, x) ∷ m) e h = ground (arith, insert-IsKeyed m e, eq_of_cmp e.key j)

-- Keys are in order, entries stand under their keys, and `size_bytes` is the sum of the sizes of
-- the entries, modulo the width of a `usize`.
pub record IsValid (m : MemTable) : Type 0 where
  pub sorted : IsSorted m.table.map
  pub keyed : IsKeyed m.table.map
  pub counted : m.size_bytes ≡ total_size m.table.map % 2 ^ 64

pub new-IsValid : (id : ℕ) → IsValid (new id)
new-IsValid id = record { sorted = tt; keyed = tt; counted = refl }

update_size_bytes-lem :
    (t new_size old_size t' : ℕ)
    → t' + old_size ≡ t + new_size
    → update_size_bytes (t % 2 ^ 64) new_size old_size ≡ t' % 2 ^ 64
unfolding update_size_bytes
update_size_bytes-lem t new_size old_size t' h = ground arith

unwrap-replaced :
    (o : Option Entry)
    → unwrap_or_zero (elim o [ none ↦ none | some old ↦ some (estimated_size old) ])
      ≡ replaced_size o
unwrap-replaced none = refl
unwrap-replaced (some e) = refl

insert_entry-IsValid : (m : MemTable) (e : Entry) → IsValid m → IsValid (insert_entry m e)
unfolding insert_entry
insert_entry-IsValid m e v = record {
  sorted = insert-IsSorted m.table.map e.key e v.sorted;
  keyed = insert-IsKeyed m.table.map e v.keyed;
  counted = rw v.counted (
      update_size_bytes-lem (total_size m.table.map) (estimated_size e) _ _
        (rw unwrap-replaced (total_size-insert m.table.map e.key e v.sorted)));
}

-- `put` and `delete` keep a memtable well-formed: its keys are in order, each entry stands under
-- its key, and `size_bytes` is the sum of the sizes of its entries modulo 2^64.
pub write-IsValid :
    (m : MemTable) (k : Key) (v : Value) (seq : ℕ)
    → IsValid m
    → IsValid (put m k v seq) × IsValid (delete m k seq)
unfolding put delete
write-IsValid m k v seq h = (insert_entry-IsValid m _ h, insert_entry-IsValid m _ h)
