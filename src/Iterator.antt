-- ===== src/Iterator.antt =====
-- src/iterator/mod.rs: iterators over a memtable and over the entries of a table, and their merge.
-- `next` of each of them succeeds, so its `Result` is gone. A heap is the list of its nodes.
pub mod Heap
pub mod Shrinking
pub mod Merged
pub mod Yield
pub mod Sources
use Prim.Native.Nat.Ordering.{lt, eq, gt}
use flash_store.Prelude.{
  ℕ, zero, suc, ◌+◌, ◌≡◌, compare, Ordering, Bool, true, false, List, [], ◌∷◌, Option, none, some,
  map, drop, length, get_elem?, ltb, if◌then◌else◌, ◌⊎◌,
}
use flash_store.Ordered.{then_with, is_lt}
use flash_store.Bytes.{cmp, key_eq}
use flash_store.Memtable.Skiplist
use flash_store.Memtable.Skiplist.{SkipListIter}
use flash_store.Types.{Key, Value, Entry}

abbrev pub pair_of : Entry → Key × Value
pair_of e = (e.key, e.value)

-- The trait `StorageIterator`, of which a merge relies on this: a valid iterator stands at a first
-- item, after which `next` gives the others, and one that is not valid has none.
pub record StorageIterator (I : Type 0) : Type 0 where
  pub valid : I → Bool
  pub next : I → I
  pub key : I → Key
  pub value : I → Value
  pub remaining : I → List (Key × Value)
  pub remaining-valid :
      (i : I)
      → ((valid i ≡ false) × (remaining i ≡ []))
        ⊎ ((valid i ≡ true) × (remaining i ≡ (key i, value i) ∷ remaining (next i)))

-- `MemtableIterator`. `expect` on a position that is not valid would panic.
pub record MemtableIterator : Type 0 where
  pub iter : SkipListIter

-- `SSTableIterator`
pub record SstableIterator : Type 0 where
  pub entries : List Entry
  pub index : ℕ

abbrev key_of : Option Entry → Key
key_of none = []
key_of (some e) = e.key

abbrev value_of : Option Entry → Value
value_of none = []
value_of (some e) = e.value

abbrev pub sstable_valid : SstableIterator → Bool
sstable_valid it = ltb it.index (length it.entries)

unfoldable pub sstable_next : SstableIterator → SstableIterator
sstable_next it = if sstable_valid it then record it { index = it.index + 1 } else it

abbrev pub sstable_key : SstableIterator → Key
sstable_key it = key_of (get_elem? it.entries it.index)

abbrev pub sstable_value : SstableIterator → Value
sstable_value it = value_of (get_elem? it.entries it.index)

abbrev pub memtable_valid : MemtableIterator → Bool
memtable_valid it = Skiplist.valid it.iter

abbrev pub memtable_next : MemtableIterator → MemtableIterator
memtable_next it = record { iter = Skiplist.next it.iter }

abbrev pub memtable_key : MemtableIterator → Key
memtable_key it = key_of (Skiplist.item it.iter)

abbrev pub memtable_value : MemtableIterator → Value
memtable_value it = value_of (Skiplist.item it.iter)

pub record HeapNode (I : Type 0) : Type 0 where
  pub iter : I
  pub index : ℕ

abbrev pub Heap : Type 0 → Type 0
Heap I = List (HeapNode I)

pub record MergingIterator (I : Type 0) : Type 0 where
  pub heap : Heap I
  pub current : Option (Key × Value)

module _ {I : Type 0} ⦃its : StorageIterator I⦄ where
  -- `Ord for HeapNode`
  unfoldable pub node_cmp : HeapNode I → HeapNode I → Ordering
  node_cmp a b = then_with (cmp (its.key b.iter) (its.key a.iter)) (compare b.index a.index)

  -- `BinaryHeap::pop`: a greatest node, and the others.
  unfoldable pub pop : Heap I → Option (HeapNode I × Heap I)
  pop [] = none
  pop (n ∷ ns) = elim (pop ns) [
    | none ↦ some (n, [])
    | some (m, rest) ↦ if is_lt (node_cmp n m) then some (m, n ∷ rest) else some (n, m ∷ rest)
  ]

  -- `if iter.valid() { heap.push(node) }`
  unfoldable pub push_valid : HeapNode I → Heap I → Heap I
  push_valid n h = if its.valid n.iter then n ∷ h else h

  abbrev pub advanced : HeapNode I → HeapNode I
  advanced n = record n { iter = its.next n.iter }

  -- `enumerate` and `push`.
  unfoldable pub heap_of : ℕ → List I → Heap I
  heap_of index [] = []
  heap_of index (i ∷ is) = push_valid (record { iter = i; index = index }) (heap_of (index + 1) is)

  -- The items that a heap has left, which bound the loop over equal keys.
  abbrev pub heap_size : Heap I → ℕ
  heap_size [] = 0
  heap_size (n ∷ ns) = length (its.remaining n.iter) + heap_size ns

  -- `while let Some(peek) = self.heap.peek() { … }`, with fuel.
  unfoldable pub skip_equal : ℕ → Key → Heap I → Heap I
  skip_equal zero k h = h
  skip_equal (suc fuel) k h = elim (pop h) [
    | none ↦ h
    | some (n, rest) ↦
        let skipped = skip_equal fuel k (push_valid (advanced n) rest) in
        if key_eq (its.key n.iter) k then skipped else h
  ]

  unfoldable pub advance : MergingIterator I → MergingIterator I
  advance m = elim (pop m.heap) [
    | none ↦ record m { current = none }
    | some (top, rest) ↦
        let h = push_valid (advanced top) rest in
        record {
          heap = skip_equal (heap_size h) (its.key top.iter) h;
          current = some (its.key top.iter, its.value top.iter);
        }
  ]

  abbrev pub new : List I → MergingIterator I
  new iters = advance (record { heap = heap_of 0 iters; current = none })

  -- `while it.valid() { … it.key(), it.value() … it.next() }`, with fuel.
  unfoldable pub yielded : ℕ → MergingIterator I → List (Key × Value)
  yielded zero m = []
  yielded (suc fuel) m = elim m.current [ none ↦ [] | some item ↦ item ∷ yielded fuel (advance m) ]
