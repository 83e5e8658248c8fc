-- ===== src/Engine/Scanned.antt =====
-- What `scan` of src/engine.rs returns.
use flash_store.Prelude.{
  ℕ, ◌≡◌, refl, ap, ◌∙◌, List, [], ◌∷◌, ◌++◌, append-nil, append_assoc, Option, none, some, true,
  false, All, All-append, All-imp, inl, inr, ltb, arith, Bool-cases, if◌then◌else◌,
}
use flash_store.Bytes.{Bytes, key_eq, eq_of_cmp}
use flash_store.BTreeMap.{get}
use flash_store.BTreeMap.Laws.{IsSorted, AllAbove, get-insert, get-AllAbove, insert-IsSorted}
use flash_store.Compaction.Merge.{NotNewer, IsNewest, In-append}
use flash_store.Error.{ok}
use flash_store.Memtable.{MemTable}
use flash_store.Tables.{Tables}
use flash_store.Types.{Key, Value, Entry, ValueType, is_tombstone}
use flash_store.Engine.{Engine}
use flash_store.Engine.Flushing.{entries_of}
use flash_store.Engine.Scan.{
  Merged, update_entry, update_entries, update_memtables, from_start, before_end, results,
  gather_levels, scan,
}

-- The fields that a scan keeps of an entry.
abbrev pub held : Option Entry → Option (ℕ × ValueType × Value)
held none = none
held (some e) = some (e.seq_no, e.value_type, e.value)

-- One more entry `e`, in terms of what was held before.
abbrev step : Key → Entry → Option Entry → Option Entry
step k e none = if key_eq k e.key then some e else none
step k e (some x) =
    if key_eq k e.key then (if ltb x.seq_no e.seq_no then some e else some x) else some x

get-update_entry :
    (m : Merged) (e : Entry) (k : Key) (o : Option Entry)
    → get m k ≡ held o
    → get (update_entry m e) k ≡ held (step k e o)
unfolding update_entry
get-update_entry m e k none h =
    ground
      (arith, get-insert m e.key (e.seq_no, e.value_type, e.value) k, eq_of_cmp k e.key, ap (get m))
get-update_entry m e k (some x) h =
    ground
      (arith, get-insert m e.key (e.seq_no, e.value_type, e.value) k, eq_of_cmp k e.key, ap (get m))

kept-IsNewest :
    (k : Key) (es : List Entry) (e x : Entry)
    → IsNewest k es (some x)
    → NotNewer k x.seq_no e
    → IsNewest k (es ++ e ∷ []) (some x)
kept-IsNewest k es e x (i, q, h) old =
    (In-append x es (e ∷ []) (inl i), q, All-append (NotNewer k x.seq_no) es (e ∷ []) h (old, tt))

taken-IsNewest :
    (k : Key) (es : List Entry) (e : Entry)
    → key_eq k e.key ≡ true
    → All (NotNewer k e.seq_no) es
    → IsNewest k (es ++ e ∷ []) (some e)
taken-IsNewest k es e same h = (
  In-append e es (e ∷ []) (inr (inl refl)),
  same,
  All-append (NotNewer k e.seq_no) es (e ∷ []) h (ground arith, tt),
)

step-IsNewest :
    (k : Key) (es : List Entry) (e : Entry) (o : Option Entry)
    → IsNewest k es o
    → IsNewest k (es ++ e ∷ []) (step k e o)
step-IsNewest k es e none h = elim (Bool-cases (key_eq k e.key)) [
  | inl same ↦ rw same (
      taken-IsNewest k es e same (
        All-imp (λ f. key_eq k f.key ≡ false) (NotNewer k e.seq_no) (λ f other. rw other refl) es
          h))
  | inr other ↦ rw other (All-append (λ f. key_eq k f.key ≡ false) es (e ∷ []) h (other, tt))
]
step-IsNewest k es e (some x) (i, q, h) = elim (Bool-cases (key_eq k e.key)) [
  | inr other ↦ rw other (kept-IsNewest k es e x (i, q, h) (rw other refl))
  | inl same ↦ elim (Bool-cases (ltb x.seq_no e.seq_no)) [
    | inr older ↦ rw (same, older) (kept-IsNewest k es e x (i, q, h) (ground arith))
    | inl newer ↦
        rw (same, newer)
          (taken-IsNewest k es e same
            (All-imp (NotNewer k x.seq_no) (NotNewer k e.seq_no) (λ f old. ground arith) es h))
  ]
]

-- What a map says of a key after some entries, and its order.
abbrev Says : Key → List Entry → Merged → Type 0
Says k done m = IsSorted m × ((o : Option Entry) × IsNewest k done o × (get m k ≡ held o))

update_entry-IsSorted : (m : Merged) (e : Entry) → IsSorted m → IsSorted (update_entry m e)
unfolding update_entry
update_entry-IsSorted m e h =
    ground (arith, insert-IsSorted m e.key (e.seq_no, e.value_type, e.value) h)

update_entries-Says :
    (k : Key) (done es : List Entry) (m : Merged)
    → Says k done m
    → Says k (done ++ es) (update_entries m es)
unfolding update_entries
update_entries-Says k done [] m h = rw (append-nil done) h
update_entries-Says k done (e ∷ es) m (sorted, (o, newest, said)) =
    rw (← append_assoc done (e ∷ []) es) (
      update_entries-Says k (done ++ e ∷ []) es (update_entry m e) (
        update_entry-IsSorted m e sorted,
        (step k e o, step-IsNewest k done e o newest, get-update_entry m e k o said),
      ))

-- The entries of some memtables.
abbrev pub all_entries : List MemTable → List Entry
all_entries [] = []
all_entries (t ∷ ts) = entries_of t ++ all_entries ts

update_memtables-Says :
    (k : Key) (done : List Entry) (ts : List MemTable) (m : Merged)
    → Says k done m
    → Says k (done ++ all_entries ts) (update_memtables m ts)
update_memtables-Says k done [] m h = rw (append-nil done) h
update_memtables-Says k done (t ∷ ts) m h =
    rw (← append_assoc done (entries_of t) (all_entries ts)) (
      update_memtables-Says k (done ++ entries_of t) ts (update_entries m (entries_of t))
        (update_entries-Says k done (entries_of t) m h))

-- What a scan shows of what is held under a key.
abbrev pub shown : Option Key → Option Key → Key → Option (ℕ × ValueType × Value) → Option Value
shown start_key end_key k none = none
shown start_key end_key k (some (seq, vt, val)) =
    if is_tombstone vt
    then none
    else if from_start start_key k
    then (if before_end end_key k then some val else none)
    else none

results-AllAbove :
    (i : Bytes) (start_key end_key : Option Key) (m : Merged)
    → AllAbove i m
    → AllAbove i (results start_key end_key m)
unfolding results
results-AllAbove i start_key end_key [] h = tt
results-AllAbove i start_key end_key ((j, (seq, vt, val)) ∷ m) h =
    ground (arith, results-AllAbove i start_key end_key m h.1, h.0)

results-IsSorted :
    (start_key end_key : Option Key) (m : Merged)
    → IsSorted m
    → IsSorted (results start_key end_key m)
unfolding results
results-IsSorted start_key end_key [] h = tt
results-IsSorted start_key end_key ((j, (seq, vt, val)) ∷ m) h =
    ground
      (arith, results-IsSorted start_key end_key m h.1, results-AllAbove j start_key end_key m h.0)

get-results :
    (start_key end_key : Option Key) (m : Merged) (k : Key)
    → IsSorted m
    → get (results start_key end_key m) k ≡ shown start_key end_key k (get m k)
unfolding results get
get-results start_key end_key [] k h = refl
get-results start_key end_key ((j, (seq, vt, val)) ∷ m) k h = ground (
  arith,
  get-results start_key end_key m k h.1,
  results-AllAbove j start_key end_key m h.0,
  get-AllAbove j (results start_key end_key m),
  eq_of_cmp k j,
)

module _ {Table : Type 0} ⦃tables : Tables Table⦄ where
  -- If the tables can be read, a scan succeeds. Its result is in ascending order of keys, one
  -- pair for each; and of each key it has the value of a newest of all entries with the key in
  -- the tables and the memtables, and nothing if there is none, if that is a tombstone, or if the
  -- key is before the start or not before the end.
  pub scan-IsNewest :
      (s : Engine Table) (start_key end_key : Option Key) (es : List Entry)
      → gather_levels s.files s.version_set.levels ≡ ok es
      → (rs : List (Key × Value)) × (scan s start_key end_key ≡ ok rs)
        × IsSorted rs
        × ((k : Key)
            → (o : Option Entry) × IsNewest k
                ((es ++ all_entries s.imm_memtables) ++ entries_of s.memtable)
                o
              × (get rs k ≡ shown start_key end_key k (held o)))
  unfolding scan get
  scan-IsNewest s start_key end_key es h =
      let m =
        update_entries (update_memtables (update_entries [] es) s.imm_memtables)
          (entries_of s.memtable) in
      let says = λ (k : Key).
        update_entries-Says k (es ++ all_entries s.imm_memtables) (entries_of s.memtable) _ (
          update_memtables-Says k es s.imm_memtables (update_entries [] es)
            (update_entries-Says k [] es [] (tt, (none, tt, refl)))) in
      (
        results start_key end_key m,
        rw h refl,
        results-IsSorted start_key end_key m (says []).0,
        λ k.
            let (sorted, (o, newest, said)) = says k in
            (
              o,
              newest,
              get-results start_key end_key m k sorted ∙ ap (shown start_key end_key k) said,
            ),
      )
