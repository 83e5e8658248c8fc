-- ===== src/Memtable/Skiplist.antt =====
-- src/memtable/skiplist.rs: the sorted map behind a memtable, and the iterator over a snapshot.
use flash_store.Prelude.{
  ℕ, zero, suc, ◌+◌, Bool, List, [], ◌∷◌, Option, none, some, length, get_elem?, ltb, ◌==◌,
  if◌then◌else◌,
}
use flash_store.BTreeMap
use flash_store.BTreeMap.{BTreeMap, values}
use flash_store.Types.{Key, Entry, estimated_size}

pub record SkipList : Type 0 where
  pub map : BTreeMap Entry

abbrev pub new : SkipList
new = record { map = [] }

-- The new list, and the size of the entry that was replaced.
unfoldable pub insert : SkipList → Entry → SkipList × Option ℕ
insert s e = (
  record { map = BTreeMap.insert s.map e.key e },
  elim (BTreeMap.get s.map e.key) [ none ↦ none | some old ↦ some (estimated_size old) ],
)

unfoldable pub get : SkipList → Key → Option Entry
get s k = BTreeMap.get s.map k

abbrev pub is_empty : SkipList → Bool
is_empty s = length s.map == 0

pub record SkipListIter : Type 0 where
  pub entries : List Entry
  pub index : ℕ

abbrev pub iter : SkipList → SkipListIter
iter s = record { entries = values s.map; index = 0 }

abbrev pub valid : SkipListIter → Bool
valid it = ltb it.index (length it.entries)

unfoldable pub next : SkipListIter → SkipListIter
next it = if valid it then record it { index = it.index + 1 } else it

unfoldable pub item : SkipListIter → Option Entry
item it = if valid it then get_elem? it.entries it.index else none

-- `while iter.valid() { if let Some(e) = iter.item() { … } iter.next(); }`, with fuel, as the list
-- of the entries that the body sees.
unfoldable pub drain : ℕ → SkipListIter → List Entry
unfolding next item
drain zero it = []
drain (suc fuel) it =
    let rest = drain fuel (next it) in
    if valid it then elim (item it) [ none ↦ rest | some e ↦ e ∷ rest ] else []
