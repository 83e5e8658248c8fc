-- ===== src/Compaction/Output.antt =====
-- The table that `run_compaction` writes.
use flash_store.Prelude.{
  ◌≡◌, refl, List, [], ◌∷◌, Option, none, some, Bool, ◌&&◌, All, leb, arith, if◌then◌else◌,
  Option-cases, inl, inr, if_keeps,
}
use flash_store.Bytes.{cmp_refl, eq_of_cmp, cmp_swap, ◌≺◌}
use flash_store.BTreeMap.{BTreeMap, get, insert, values}
use flash_store.BTreeMap.Laws
use flash_store.BTreeMap.Laws.{insert-IsSorted, get-AllAbove, AllAbove}
use flash_store.Error.{Result, ok}
use flash_store.Memtable.Size.{IsKeyed, insert-IsKeyed}
use flash_store.Sstable.Block.Search.{IsSorted, find}
use flash_store.Tables.{Tables}
use flash_store.Types.{Key, Value, Entry, is_tombstone}
use flash_store.Compaction.{merge_entry, merge_entries, final_entries}

abbrev pub SortedKeyed : BTreeMap Entry → Type 0
SortedKeyed m = Laws.IsSorted m × IsKeyed m

merge_entry-keeps :
    (m : BTreeMap Entry) (e : Entry)
    → SortedKeyed m
    → SortedKeyed (insert m e.key e)
    → SortedKeyed (merge_entry m e)
unfolding merge_entry
merge_entry-keeps m e h new = elim (Option-cases (get m e.key)) [
  | inl absent ↦ rw (absent, merge_entry) new
  | inr (x, p) ↦ rw (p, merge_entry) (if_keeps SortedKeyed (leb x.seq_no e.seq_no) _ _ new h)
]

pub merge-SortedKeyed :
    (m : BTreeMap Entry) (es : List Entry) → SortedKeyed m → SortedKeyed (merge_entries m es)
unfolding merge_entries merge_entry
merge-SortedKeyed m [] h = h
merge-SortedKeyed m (e ∷ es) h =
    let new : SortedKeyed (insert m e.key e) =
      (insert-IsSorted m e.key e h.0, insert-IsKeyed m e h.1) in
    merge-SortedKeyed (merge_entry m e) es (merge_entry-keeps m e h new)

All-final {κ} :
    (P : Entry → Type κ) (b : Bool) (es : List Entry) → All P es → All P (final_entries b es)
unfolding final_entries
All-final P b [] h = tt
All-final P b (e ∷ es) h = ground (arith, All-final P b es)

pub final-IsSorted : (b : Bool) (es : List Entry) → IsSorted es → IsSorted (final_entries b es)
unfolding final_entries
final-IsSorted b [] h = tt
final-IsSorted b (e ∷ es) h =
    ground (arith, final-IsSorted b es, All-final (λ f. e.key ≺ f.key) b es h.0)

-- What is left of an entry at a level that is the bottom one or not.
abbrev pub purge : Bool → Option Entry → Option Entry
purge is_bottom_level none = none
purge is_bottom_level (some e) =
    if is_bottom_level && is_tombstone e.value_type then none else some e

pub final-find :
    (b : Bool) (m : BTreeMap Entry) (k : Key)
    → SortedKeyed m
    → find k (final_entries b (values m)) ≡ purge b (get m k)
unfolding final_entries find get
final-find b [] k h = refl
final-find b ((j, e) ∷ m) k h = ground (
  arith,
  final-find b m k (h.0.1, h.1.1),
  get-AllAbove j m h.0.0,
  h.1.0,
  eq_of_cmp j k,
  cmp_swap j k,
  cmp_refl k,
)

module _ {Table : Type 0} ⦃tables : Tables Table⦄ where
  -- A lookup in the output, which may have no table.
  abbrev pub lookup_output : Option Table → Key → Result (Option (Option Value))
  lookup_output none k = ok none
  lookup_output (some t) k = tables.lookup t k
