-- ===== src/Engine/Layers/Scanned.antt =====
-- `scan` of src/engine.rs shows what `get` answers.
use flash_store.Prelude.{
  ℕ, zero, suc, ◌≤◌, ◌<◌, ◌≡◌, refl, ap, sym, ◌∙◌, subst, List, [], ◌∷◌, ◌++◌, Option, none, some,
  In, inl, inr, arith, ◌⊎◌, true, false, ◌&&◌, Option-cases, append-nil, if◌then◌else◌,
}
use mathlib.Core.Option.{some-injective}
use flash_store.BTreeMap
use flash_store.BTreeMap.Laws
use flash_store.Bytes.{key_eq}
use flash_store.Compaction.{gather}
use flash_store.Compaction.Merge.{IsNewest, NotNewer, In-append}
use flash_store.Error.{ok}
use flash_store.Manifest.{FileMetaData, Levels}
use flash_store.Manifest.Levels.{files_at}
use flash_store.Memtable
use flash_store.Memtable.{MemTable, answer}
use flash_store.Sstable.Block.Search.{IsSorted, find}
use flash_store.Tables.{Tables, answer_of}
use flash_store.Types.{Key, Value, Entry}
use flash_store.Engine.{Engine, get}
use flash_store.Engine.Entries.{entries_of-values, values-IsSorted, get-find}
use flash_store.Engine.Flush.{IsValid, found}
use flash_store.Engine.Flushing.{entries_of}
use flash_store.Engine.Scan.{gather_levels, scan, from_start, before_end}
use flash_store.Engine.Scanned
use flash_store.Engine.Scanned.{shown, scan-IsNewest}
use flash_store.Engine.Search.{or_else, flat}
use flash_store.Engine.Layers.{held, Stored, table_entries}
use flash_store.Engine.Layers.Gathered.{
  all_entries, gather-ok, all_entries-In, In-all_entries, find-In, find-sorted, All-In-entry,
  append-In,
}
use flash_store.Engine.Layers.Newest.{IsHeld, first_of-Newest}
use flash_store.Engine.Layers.Pass.{held_unique}
use flash_store.Engine.Layers.Passes.{Layered, get-newest}
use flash_store.Engine.Layers.Reads.{Stored-held, first_of, or_held}

module _ {Table : Type 0} ⦃tables : Tables Table⦄ (files : ℕ → Option Table) where
  abbrev pub level_entries : Levels → List Entry
  level_entries [] = []
  level_entries (l ∷ ls) = all_entries files l ++ level_entries ls

  gather_more :
      (l : List FileMetaData) (ls : Levels) (es rest : List Entry)
      → gather files l ≡ ok es
      → gather_levels files ls ≡ ok rest
      → gather_levels files (l ∷ ls) ≡ ok (es ++ rest)
  unfolding gather_levels
  gather_more l ls es rest p q = ground arith

  gather_levels-ok :
      (ls : Levels)
      → ((j : ℕ) (g : FileMetaData) → In g (files_at j ls) → Stored files g)
      → gather_levels files ls ≡ ok (level_entries ls)
  unfolding gather_levels
  gather_levels-ok [] s = refl
  gather_levels-ok (l ∷ ls) s =
      gather_more l ls (all_entries files l) (level_entries ls) (gather-ok files l (s 0))
        (gather_levels-ok ls (λ j. s (suc j)))

  -- The gathered entries of a key are the held ones.
  level_entries-held :
      (ls : Levels) (k : Key) (x : Entry)
      → ((j : ℕ) (g : FileMetaData) → In g (files_at j ls) → Stored files g)
      → In x (level_entries ls)
      → key_eq k x.key ≡ true
      → IsHeld (held files) k ls x
  level_entries-held [] k x s i e = absurd (elim i [ ])
  level_entries-held (l ∷ ls) k x s i e =
      elim (append-In x (all_entries files l) (level_entries ls) i) [
        | inl here ↦
            let (p, (m, at)) = all_entries-In files l x here in
            let st = s 0 p m in
            let sorted : IsSorted (table_entries (files p.file_number)) =
              subst IsSorted (sym (Stored-held Table files p st)) st.1.1.sorted in
            (0, (p, (m, find-sorted k (table_entries (files p.file_number)) x sorted at e)))
        | inr later ↦
            let (j, (p, (m, h))) = level_entries-held ls k x (λ j. s (suc j)) later e in
            (suc j, (p, (m, h)))
      ]

  held-level_entries :
      (ls : Levels) (k : Key) (x : Entry)
      → IsHeld (held files) k ls x
      → In x (level_entries ls) × (key_eq k x.key ≡ true)
  held-level_entries [] k x (j, (p, (m, h))) = absurd (elim m [ ])
  held-level_entries (l ∷ ls) k x (zero, (p, (m, h))) =
      let (i, e) = find-In k (table_entries (files p.file_number)) x h in
      (
        In-append x (all_entries files l) (level_entries ls) (inl (In-all_entries files l p x m i)),
        e,
      )
  held-level_entries (l ∷ ls) k x (suc j, (p, (m, h))) =
      let (i, e) = held-level_entries ls k x (j, (p, (m, h))) in
      (In-append x (all_entries files l) (level_entries ls) (inr i), e)

-- Of entries of a key the newest is not older.
newest-ge :
    (k : Key) (es : List Entry) (e a : Entry)
    → IsNewest k es (some e)
    → In a es
    → key_eq k a.key ≡ true
    → a.seq_no ≤ e.seq_no
newest-ge k es e a (_, _, h) i same =
    let older = All-In-entry (NotNewer k e.seq_no) es a h i in ground arith

newest-some :
    (k : Key) (es : List Entry) (o : Option Entry) (a : Entry)
    → IsNewest k es o
    → In a es
    → key_eq k a.key ≡ true
    → (e : Entry) × (o ≡ some e)
newest-some k es none a h i same =
    let other = All-In-entry (λ f. key_eq k f.key ≡ false) es a h i in absurd cc
newest-some k es (some e) a h i same = (e, refl)

-- An entry of the key in the list that every other one is older than.
abbrev IsTop : Key → List Entry → Option Entry → Type 0
IsTop k es o =
    ((e : Entry) → o ≡ some e → In e es × (key_eq k e.key ≡ true))
    × ((a : Entry)
        → In a es
        → key_eq k a.key ≡ true
        → (e : Entry) × ((o ≡ some e) × ((a ≡ e) ⊎ (a.seq_no < e.seq_no))))

top_unique :
    (k : Key) (es : List Entry) (o o' : Option Entry) → IsNewest k es o → IsTop k es o' → o ≡ o'
top_unique k es none none h (there, most) = refl
top_unique k es none (some e) h (there, most) =
    let (i, same) = there e refl in let (x, q) = newest-some k es none e h i same in absurd cc
top_unique k es (some x) o' h (there, most) =
    let (e, (q, which)) = most x h.0 h.1 in
    elim which [
      | inl one ↦ ap some one ∙ sym q
      | inr lt ↦
          let (i, same) = there e q in let le = newest-ge k es x e h i same in absurd (omega arith)
    ]

lt_or_same : (a b : ℕ) → a ≤ b → (a ≡ b) ⊎ (a < b)
lt_or_same a b h = ground arith

answered :
    (a b : Option Entry)
    → found (or_else (ok (answer_of a)) (ok (answer_of b))) ≡ ok (flat (answer_of (or_held a b)))
unfolding or_else
answered none b = refl
answered (some a) b = refl

memtable_answer :
    (m : MemTable) (k : Key) → Memtable.get m k ≡ answer_of (BTreeMap.get m.table.map k)
unfolding Memtable.get
memtable_answer m k = ground arith

-- Of a value only what lies in the bounds of a scan.
abbrev pub in_bounds : Option Key → Option Key → Key → Option Value → Option Value
in_bounds start_key end_key k v = if from_start start_key k && before_end end_key k then v else none

shown-in_bounds :
    (start_key end_key : Option Key) (k : Key) (o : Option Entry)
    → shown start_key end_key k (Scanned.held o)
      ≡ in_bounds start_key end_key k (flat (answer_of o))
shown-in_bounds start_key end_key k none = ground arith
shown-in_bounds start_key end_key k (some e) = ground arith

module _ {Table : Type 0} ⦃tables : Tables Table⦄ where
  -- The newest entry of a key in the tables and the memtable.
  abbrev newest_of : Engine Table → Key → Option Entry
  newest_of s k =
      or_held (BTreeMap.get s.memtable.table.map k) (first_of (held s.files) k s.version_set.levels)

  module _ (s : Engine Table) (k : Key) (v : Memtable.Size.IsValid s.memtable) (l : Layered s) where
    In-memtable :
        (b : Entry)
        → In b (entries_of s.memtable)
        → key_eq k b.key ≡ true
        → BTreeMap.get s.memtable.table.map k ≡ some b
    In-memtable b i same =
        let m = s.memtable.table.map in
        let sorted : IsSorted (entries_of s.memtable) =
          rw (entries_of-values s.memtable) (values-IsSorted m v.keyed v.sorted) in
        get-find m k v.keyed
        ∙ ap (find k) (sym (entries_of-values s.memtable))
        ∙ find-sorted k (entries_of s.memtable) b sorted i same

    memtable-IsTop :
        (a : Entry)
        → BTreeMap.get s.memtable.table.map k ≡ some a
        → IsTop k
            (level_entries s.files s.version_set.levels ++ entries_of s.memtable)
            (newest_of s k)
    memtable-IsTop a there =
        let old = level_entries s.files s.version_set.levels in
        let new = entries_of s.memtable in
        let is_a : newest_of s k ≡ some a =
          ap (λ o. or_held o (first_of (held s.files) k s.version_set.levels)) there in
        let found_in : find k new ≡ some a =
          ap (find k) (entries_of-values s.memtable)
          ∙ sym (get-find s.memtable.table.map k v.keyed)
          ∙ there in
        (
          λ e q.
              let one : a ≡ e = some-injective a e (sym is_a ∙ q) in
              let (i, same) = find-In k new a found_in in
              subst (λ e. In e (old ++ new) × (key_eq k e.key ≡ true)) one
                (In-append a old new (inr i), same),
          λ b i same. (
            a,
            (
              is_a,
              elim (append-In b old new i) [
                | inl below ↦ inr (
                    l.memtable_newer k a b there
                      (level_entries-held s.files s.version_set.levels k b l.stored below same))
                | inr here ↦ inl (some-injective b a (sym (In-memtable b here same) ∙ there))
              ],
            ),
          ),
        )

    tables-IsTop :
        BTreeMap.get s.memtable.table.map k ≡ none
        → IsTop k
            (level_entries s.files s.version_set.levels ++ entries_of s.memtable)
            (newest_of s k)
    tables-IsTop absent =
        let ls = s.version_set.levels in
        let old = level_entries s.files ls in
        let new = entries_of s.memtable in
        let first = first_of (held s.files) k ls in
        let is_first : newest_of s k ≡ first = ap (λ o. or_held o first) absent in
        let (is_held, most) = first_of-Newest (held s.files) k ls l.order in
        (
          λ e q.
              let (i, same) = held-level_entries s.files ls k e (is_held e (sym is_first ∙ q)) in
              (In-append e old new (inl i), same),
          λ b i same. elim (append-In b old new i) [
            | inr here ↦ let there = In-memtable b here same in absurd cc
            | inl below ↦
                let b_held = level_entries-held s.files ls k b l.stored below same in
                let (j, (f, (n, h))) = b_held in
                let (e, (q, le)) = most j f b n h in
                (
                  e,
                  (
                    is_first ∙ q,
                    elim (lt_or_same b.seq_no e.seq_no le) [
                      | inl eq ↦
                          inl (held_unique (held s.files) k ls b e l.order b_held (is_held e q) eq)
                      | inr lt ↦ inr lt
                    ],
                  ),
                )
          ],
        )

    newest_of-IsTop :
        IsTop k
          (level_entries s.files s.version_set.levels ++ entries_of s.memtable)
          (newest_of s k)
    newest_of-IsTop = elim (Option-cases (BTreeMap.get s.memtable.table.map k)) [
      | inr (a, there) ↦ memtable-IsTop a there
      | inl absent ↦ tables-IsTop absent
    ]

    get-newest_of : s.imm_memtables ≡ [] → get s k ≡ ok (flat (answer_of (newest_of s k)))
    get-newest_of h =
        get-newest s k l h
        ∙ ap
            (λ a.
              found
                (or_else (ok a) (ok (answer_of (first_of (held s.files) k s.version_set.levels)))))
            (memtable_answer s.memtable k)
        ∙ answered (BTreeMap.get s.memtable.table.map k)
            (first_of (held s.files) k s.version_set.levels)

  -- From a well-formed state with its tables in order, a scan succeeds, with a result in
  -- ascending order of keys; and `get` of each key succeeds, with what the result has under the
  -- key if the key is in the bounds of the scan, while the result has nothing under any other
  -- key.
  pub scan-get :
      (s : Engine Table) (start_key end_key : Option Key)
      → IsValid s
      → Layered s
      → (rs : List (Key × Value)) × (scan s start_key end_key ≡ ok rs)
        × BTreeMap.Laws.IsSorted rs
        × ((k : Key)
            → (v : Option Value) × (get s k ≡ ok v)
              × (BTreeMap.get rs k ≡ in_bounds start_key end_key k v))
  scan-get s start_key end_key v l =
      let old = level_entries s.files s.version_set.levels in
      let (rs, run, sorted, says) =
        scan-IsNewest s start_key end_key old
          (gather_levels-ok s.files s.version_set.levels l.stored) in
      (
        rs,
        run,
        sorted,
        λ k.
            let (o, newest, shows) = says k in
            let imm : (old ++ Scanned.all_entries s.imm_memtables) ≡ old =
              ap (λ ms. old ++ Scanned.all_entries ms) v.none_frozen ∙ append-nil old in
            let one : o ≡ newest_of s k =
              top_unique k (old ++ entries_of s.memtable) o (newest_of s k)
                (subst (λ es. IsNewest k (es ++ entries_of s.memtable) o) imm newest)
                (newest_of-IsTop s k v.memtable l) in
            (
              flat (answer_of (newest_of s k)),
              get-newest_of s k v.memtable l v.none_frozen,
              shows
                  ∙ shown-in_bounds start_key end_key k o
                  ∙ ap (λ o. in_bounds start_key end_key k (flat (answer_of o))) one,
            ),
      )
