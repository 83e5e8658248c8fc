-- ===== src/Iterator/Sources.antt =====
-- The iterators of src/iterator/mod.rs over a memtable and over a table, as sources of a merge.
use flash_store.Prelude.{
  ◌≡◌, refl, ap, ◌∙◌, List, [], ◌∷◌, map, drop, drop_step, drop_all, true, false, Bool-cases, inl,
  inr, ◌⊎◌, All, ltb→lt, ltb→le,
}
use flash_store.BTreeMap
use flash_store.BTreeMap.{BTreeMap, values}
use flash_store.BTreeMap.Laws
use flash_store.Bytes.{Bytes, ◌≺◌}
use flash_store.Memtable.Skiplist
use flash_store.Memtable.Skiplist.{SkipListIter}
use flash_store.Sstable.Block.Search.{IsSorted}
use flash_store.Types.{Key, Value, Entry}
use flash_store.Iterator.{
  StorageIterator, MemtableIterator, SstableIterator, pair_of, sstable_valid, sstable_next,
  sstable_key, sstable_value, memtable_valid, memtable_next, memtable_key, memtable_value,
}

abbrev sstable_remaining : SstableIterator → List (Key × Value)
sstable_remaining it = map pair_of (drop it.index it.entries)

sstable_remaining-valid :
    (it : SstableIterator)
    → ((sstable_valid it ≡ false) × (sstable_remaining it ≡ []))
      ⊎ ((sstable_valid it ≡ true)
          × (sstable_remaining it
              ≡ (sstable_key it, sstable_value it) ∷ sstable_remaining (sstable_next it)))
unfolding sstable_next
sstable_remaining-valid it = elim (Bool-cases (sstable_valid it)) [
  | inr done ↦ inl (done, ap (map pair_of) (drop_all it.index it.entries (ltb→le _ _ done)))
  | inl more ↦
      let (x, at, rest) = drop_step it.entries it.index (ltb→lt _ _ more) in
      inr (more, ap (map pair_of) rest ∙ rw more (rw at refl))
]

abbrev memtable_remaining : MemtableIterator → List (Key × Value)
memtable_remaining it = map pair_of (drop it.iter.index it.iter.entries)

memtable_remaining-valid :
    (it : MemtableIterator)
    → ((memtable_valid it ≡ false) × (memtable_remaining it ≡ []))
      ⊎ ((memtable_valid it ≡ true)
          × (memtable_remaining it
              ≡ (memtable_key it, memtable_value it) ∷ memtable_remaining (memtable_next it)))
unfolding Skiplist.next Skiplist.item
memtable_remaining-valid it = elim (Bool-cases (memtable_valid it)) [
  | inr done ↦
      inl (done, ap (map pair_of) (drop_all it.iter.index it.iter.entries (ltb→le _ _ done)))
  | inl more ↦
      let (x, at, rest) = drop_step it.iter.entries it.iter.index (ltb→lt _ _ more) in
      inr (more, ap (map pair_of) rest ∙ rw more (rw at refl))
]

instance pub memtable_source : StorageIterator MemtableIterator
memtable_source = record {
  valid = memtable_valid;
  next = memtable_next;
  key = memtable_key;
  value = memtable_value;
  remaining = memtable_remaining;
  remaining-valid = memtable_remaining-valid;
}

instance pub sstable_source : StorageIterator SstableIterator
sstable_source = record {
  valid = sstable_valid;
  next = sstable_next;
  key = sstable_key;
  value = sstable_value;
  remaining = sstable_remaining;
  remaining-valid = sstable_remaining-valid;
}

pairs-AllAbove :
    (k : Bytes) (es : List Entry)
    → All (λ e. k ≺ e.key) es
    → BTreeMap.Laws.AllAbove k (map pair_of es)
pairs-AllAbove k [] h = tt
pairs-AllAbove k (e ∷ es) h = (h.0, pairs-AllAbove k es h.1)

-- Entries in key order are a source in key order, from the first on.
pub sstable-IsSorted :
    (es : List Entry)
    → IsSorted es
    → BTreeMap.Laws.IsSorted (sstable_source.remaining (record { entries = es; index = 0 }))
unfolding sstable_source
sstable-IsSorted [] h = tt
sstable-IsSorted (e ∷ es) h = (pairs-AllAbove e.key es h.0, sstable-IsSorted es h.1)
