-- ===== src/Engine/Scan.antt =====
-- src/engine.rs: `scan`.
use flash_store.Prelude.{
  ℕ, Bool, true, false, List, [], ◌∷◌, ◌++◌, Option, none, some, ltb, if◌then◌else◌,
}
use flash_store.Bytes.{key_lt}
use flash_store.BTreeMap
use flash_store.BTreeMap.{BTreeMap}
use flash_store.Compaction.{gather}
use flash_store.Error.{Result, ok, ◌>>=◌}
use flash_store.Manifest.{Levels}
use flash_store.Memtable.{MemTable}
use flash_store.Tables.{Tables}
use flash_store.Types.{Key, Value, Entry, ValueType, is_tombstone}
use flash_store.Engine.{Engine}
use flash_store.Engine.Flushing.{entries_of}

-- The sequence number, the type and the value of the newest entry of a key so far.
abbrev pub Merged : Type 0
Merged = BTreeMap (ℕ × ValueType × Value)

-- `update_entry`: of equal sequence numbers the first stays.
unfoldable pub update_entry : Merged → Entry → Merged
update_entry m e =
    let new = BTreeMap.insert m e.key (e.seq_no, e.value_type, e.value) in
    elim (BTreeMap.get m e.key) [
      | none ↦ new
      | some (seq, vt, val) ↦ if ltb seq e.seq_no then new else m
    ]

unfoldable pub update_entries : Merged → List Entry → Merged
update_entries m [] = m
update_entries m (e ∷ es) = update_entries (update_entry m e) es

abbrev pub update_memtables : Merged → List MemTable → Merged
update_memtables m [] = m
update_memtables m (t ∷ ts) = update_memtables (update_entries m (entries_of t)) ts

-- The bounds of a scan: the start is in, the end is not.
abbrev pub from_start : Option Key → Key → Bool
from_start none k = true
from_start (some start) k = if key_lt k start then false else true

abbrev pub before_end : Option Key → Key → Bool
before_end none k = true
before_end (some end) k = key_lt k end

unfoldable pub results : Option Key → Option Key → Merged → List (Key × Value)
results start_key end_key [] = []
results start_key end_key ((key, (seq, vt, val)) ∷ m) =
    let rest = results start_key end_key m in
    if is_tombstone vt
    then rest
    else if from_start start_key key
    then (if before_end end_key key then (key, val) ∷ rest else rest)
    else rest

module _ {Table : Type 0} ⦃tables : Tables Table⦄ where
  -- The entries of the tables, level after level.
  unfoldable pub gather_levels : (ℕ → Option Table) → Levels → Result (List Entry)
  gather_levels files [] = ok []
  gather_levels files (l ∷ ls) =
      gather files l >>= (λ es. gather_levels files ls >>= (λ rest. ok (es ++ rest)))

  unfoldable pub scan : Engine Table → Option Key → Option Key → Result (List (Key × Value))
  scan s start_key end_key = gather_levels s.files s.version_set.levels >>= (λ es. ok (
      results start_key end_key (
        update_entries (update_memtables (update_entries [] es) s.imm_memtables)
          (entries_of s.memtable))))
