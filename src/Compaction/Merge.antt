-- ===== src/Compaction/Merge.antt =====
-- The merge of `run_compaction`: of each key the newest entry is kept.
use flash_store.Prelude.{
  ℕ, ◌≡◌, refl, ap, List, [], ◌∷◌, ◌++◌, append-nil, append_assoc, Option, none, some, true, false,
  All, All-append, All-imp, In, inl, inr, leb, arith, Bool-cases, ◌⊎◌, if◌then◌else◌,
}
use flash_store.Bytes.{key_eq, eq_of_cmp}
use flash_store.BTreeMap.{BTreeMap, get}
use flash_store.BTreeMap.Laws.{get-insert}
use flash_store.Types.{Key, Entry}
use flash_store.Compaction.{merge_entry, merge_entries}

-- An entry with another key, or with a sequence number up to `n`.
abbrev pub NotNewer : Key → ℕ → Entry → Type 0
NotNewer k n f = (if key_eq k f.key then leb f.seq_no n else true) ≡ true

-- `o` is what a list of entries holds under a key: none, if no entry has the key, and otherwise an
-- entry of the list with that key, and no entry with the key has a higher sequence number.
abbrev pub IsNewest : Key → List Entry → Option Entry → Type 0
IsNewest k es none = All (λ f. key_eq k f.key ≡ false) es
IsNewest k es (some e) = In e es × (key_eq k e.key ≡ true) × All (NotNewer k e.seq_no) es

pub In-append : {A : Type 0} (e : A) (xs ys : List A) → In e xs ⊎ In e ys → In e (xs ++ ys)
In-append e [] ys (inl h) = elim h [ ]
In-append e [] ys (inr h) = h
In-append e (x ∷ xs) ys (inl (inl h)) = inl h
In-append e (x ∷ xs) ys (inl (inr h)) = inr (In-append e xs ys (inl h))
In-append e (x ∷ xs) ys (inr h) = inr (In-append e xs ys (inr h))

-- One more entry `e`, in terms of what was held before.
abbrev step : Key → Entry → Option Entry → Option Entry
step k e none = if key_eq k e.key then some e else none
step k e (some x) =
    if key_eq k e.key then (if leb x.seq_no e.seq_no then some e else some x) else some x

get-merge_entry :
    (m : BTreeMap Entry) (e : Entry) (k : Key) → get (merge_entry m e) k ≡ step k e (get m k)
unfolding merge_entry
get-merge_entry m e k = ground (arith, get-insert m e.key e k, eq_of_cmp k e.key, ap (get m))

step-IsNewest :
    (k : Key) (es : List Entry) (e : Entry) (o : Option Entry)
    → IsNewest k es o
    → IsNewest k (es ++ e ∷ []) (step k e o)
step-IsNewest k es e none h = elim (Bool-cases (key_eq k e.key)) [
  | inl same ↦ rw same (
    In-append e es (e ∷ []) (inr (inl refl)),
    same,
    All-append (NotNewer k e.seq_no) es (e ∷ [])
        (All-imp (λ f. key_eq k f.key ≡ false) (NotNewer k e.seq_no) (λ f other. rw other refl) es
          h)
        (ground arith, tt),
  )
  | inr other ↦ rw other (All-append (λ f. key_eq k f.key ≡ false) es (e ∷ []) h (other, tt))
]
step-IsNewest k es e (some x) (i, q, h) =
    let kept : key_eq k e.key ≡ false ⊎ leb x.seq_no e.seq_no ≡ false
        → IsNewest k (es ++ e ∷ []) (some x) =
      λ why. (
        In-append x es (e ∷ []) (inl i),
        q,
        All-append (NotNewer k x.seq_no) es (e ∷ []) h (ground arith, tt),
      ) in
    elim (Bool-cases (key_eq k e.key)) [
      | inr other ↦ rw other (kept (inl other))
      | inl same ↦ elim (Bool-cases (leb x.seq_no e.seq_no)) [
        | inr older ↦ rw same (rw older (kept (inr older)))
        | inl newer ↦ rw same (
            rw newer (
              In-append e es (e ∷ []) (inr (inl refl)),
              same,
              All-append (NotNewer k e.seq_no) es (e ∷ [])
                  (All-imp (NotNewer k x.seq_no) (NotNewer k e.seq_no) (λ f old. ground arith) es h)
                  (ground arith, tt),
            ))
      ]
    ]

merge-IsNewest :
    (m : BTreeMap Entry) (done es : List Entry) (k : Key)
    → IsNewest k done (get m k)
    → IsNewest k (done ++ es) (get (merge_entries m es) k)
unfolding merge_entries
merge-IsNewest m done [] k h = rw (append-nil done) h
merge-IsNewest m done (e ∷ es) k h = rw (← append_assoc done (e ∷ []) es) (
    merge-IsNewest (merge_entry m e) (done ++ e ∷ []) es k
      (rw (get-merge_entry m e k) (step-IsNewest k done e (get m k) h)))

-- After the merge the map holds of each key an entry of the gathered ones with that key and a
-- highest sequence number among them, and nothing exactly if no gathered entry has the key.
pub merge_entries-IsNewest :
    (es : List Entry) (k : Key) → IsNewest k es (get (merge_entries [] es) k)
unfolding get
merge_entries-IsNewest es k = merge-IsNewest [] [] es k tt
