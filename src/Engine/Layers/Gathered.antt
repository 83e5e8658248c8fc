-- ===== src/Engine/Layers/Gathered.antt =====
-- What `run_compaction` gathers from sound tables, in terms of what the files hold.
use flash_store.Prelude.{
  ℕ, ◌≤◌, ◌≡◌, refl, ap, sym, ◌∙◌, subst, ◌++◌, List, [], ◌∷◌, Option, none, some, In, inl, inr,
  All, arith, Bool-cases, true, false, ◌⊎◌, Option-cases,
}
use mathlib.Core.Option.{some-injective}
use flash_store.Bytes.{key_eq, key_le, cmp_swap, cmp_refl, eq_of_cmp, ◌≺◌}
use flash_store.Compaction.{gather}
use flash_store.Compaction.Merge.{IsNewest, NotNewer, In-append}
use flash_store.Compaction.Ranges.{Between}
use flash_store.Engine.Flushing.{last_key}
use flash_store.Error.{ok}
use flash_store.Manifest.{FileMetaData}
use flash_store.Sstable.Block.Search.{IsSorted, find}
use flash_store.Tables.{Tables}
use flash_store.Types.{Key, Entry}
use flash_store.Engine.Layers.{held, Stored, table_entries}
use flash_store.Engine.Layers.Reads.{Stored-held}

same_key : (a b : Key) → key_eq a b ≡ true → key_eq b a ≡ true
same_key a b h = ground (arith, cmp_swap a b)

-- What a scan finds is in the list and has the key.
pub find-In :
    (k : Key) (es : List Entry) (b : Entry) → find k es ≡ some b → In b es × (key_eq k b.key ≡ true)
unfolding find
find-In k [] b h = absurd cc
find-In k (e ∷ es) b h = elim (Bool-cases (key_eq e.key k)) [
  | inl p ↦
      let same : e ≡ b = some-injective e b (rw p at h) in
      (inl (sym same), same_key b.key k (subst (λ x. key_eq x.key k ≡ true) same p))
  | inr p ↦ let (i, q) = find-In k es b (rw p at h) in (inr i, q)
]

pub All-In-entry : (P : Entry → Type 0) (l : List Entry) (f : Entry) → All P l → In f l → P f
All-In-entry P [] f a i = elim i [ ]
All-In-entry P (g ∷ l) f a (inl same) = subst P (sym same) a.0
All-In-entry P (g ∷ l) f a (inr i) = All-In-entry P l f a.1 i

below_other : (a b k : Key) → a ≺ b → key_eq k b ≡ true → key_eq a k ≡ false
below_other a b k lt e = ground (arith, eq_of_cmp k b, cmp_swap a k)

-- In key order a scan finds the entry with the key.
pub find-sorted :
    (k : Key) (es : List Entry) (x : Entry)
    → IsSorted es
    → In x es
    → key_eq k x.key ≡ true
    → find k es ≡ some x
unfolding find
find-sorted k [] x s i h = absurd (elim i [ ])
find-sorted k (e ∷ es) x s (inl same) h =
    let here : key_eq e.key k ≡ true =
      same_key k e.key (subst (λ x. key_eq k x.key ≡ true) same h) in
    rw here (ap some (sym same))
find-sorted k (e ∷ es) x s (inr i) h =
    rw (below_other e.key x.key k (All-In-entry (λ f. e.key ≺ f.key) es x s.0 i) h)
      (find-sorted k es x s.1 i h)

last_key-ge :
    (lo : Key) (e : Key) (es : List Entry)
    → key_le lo e ≡ true
    → All (λ f. lo ≺ f.key) es
    → key_le lo (last_key e es) ≡ true
last_key-ge lo e [] h a = h
last_key-ge lo e (f ∷ es) h a = last_key-ge lo f.key es (ground (arith, a.0)) a.1

up_to_last :
    (e : Entry) (es : List Entry)
    → IsSorted (e ∷ es)
    → All (λ f. key_le f.key (last_key e.key es) ≡ true) (e ∷ es)
up_to_last e [] s = (ground (arith, cmp_refl e.key), tt)
up_to_last e (f ∷ es) s =
    (last_key-ge e.key f.key es (ground (arith, s.0.0)) s.0.1, up_to_last f es s.1)

from_first :
    (lo hi : Key) (es : List Entry)
    → All (λ f. lo ≺ f.key) es
    → All (λ f. key_le f.key hi ≡ true) es
    → All (λ f. Between lo hi f.key) es
from_first lo hi [] a b = tt
from_first lo hi (e ∷ es) a b = ((ground (arith, a.0), b.0), from_first lo hi es a.1 b.1)

-- The keys of a table lie between its first and its last one.
pub sorted_range :
    (e : Entry) (es : List Entry)
    → IsSorted (e ∷ es)
    → All (λ f. Between e.key (last_key e.key es) f.key) (e ∷ es)
sorted_range e es s =
    let up = up_to_last e es s in
    ((ground (arith, cmp_refl e.key), up.0), from_first e.key (last_key e.key es) es s.0 up.1)

pub append-In : {A : Type 0} (e : A) (xs ys : List A) → In e (xs ++ ys) → In e xs ⊎ In e ys
append-In e [] ys i = inr i
append-In e (x ∷ xs) ys (inl h) = inl (inl h)
append-In e (x ∷ xs) ys (inr i) = elim (append-In e xs ys i) [ inl j ↦ inl (inr j) | inr j ↦ inr j ]

module _ {Table : Type 0} ⦃tables : Tables Table⦄ (files : ℕ → Option Table) where
  abbrev pub all_entries : List FileMetaData → List Entry
  all_entries [] = []
  all_entries (f ∷ fs) = table_entries (files f.file_number) ++ all_entries fs

  gather_file :
      (f : FileMetaData) (fs : List FileMetaData) (t : Table) (es rest : List Entry)
      → files f.file_number ≡ some t
      → tables.read_all t ≡ ok es
      → gather files fs ≡ ok rest
      → gather files (f ∷ fs) ≡ ok (es ++ rest)
  unfolding gather
  gather_file f fs t es rest there read g = ground arith

  pub gather-ok :
      (fs : List FileMetaData)
      → ((f : FileMetaData) → In f fs → Stored files f)
      → gather files fs ≡ ok (all_entries fs)
  unfolding gather
  gather-ok [] s = refl
  gather-ok (f ∷ fs) s =
      let (t, (there, sound)) = s f (inl refl) in
      gather_file f fs t sound.entries (all_entries fs) there sound.read_all
        (gather-ok fs (λ g i. s g (inr i)))
      ∙ ap (λ es. ok (es ++ all_entries fs)) (sym (Stored-held Table files f (t, (there, sound))))

  pub all_entries-In :
      (fs : List FileMetaData) (x : Entry)
      → In x (all_entries fs)
      → (p : FileMetaData) × (In p fs × In x (table_entries (files p.file_number)))
  all_entries-In [] x i = absurd (elim i [ ])
  all_entries-In (f ∷ fs) x i =
      elim (append-In x (table_entries (files f.file_number)) (all_entries fs) i) [
        | inl j ↦ (f, (inl refl, j))
        | inr j ↦ let (p, (k, l)) = all_entries-In fs x j in (p, (inr k, l))
      ]

  pub In-all_entries :
      (fs : List FileMetaData) (p : FileMetaData) (x : Entry)
      → In p fs
      → In x (table_entries (files p.file_number))
      → In x (all_entries fs)
  In-all_entries [] p x i j = absurd (elim i [ ])
  In-all_entries (f ∷ fs) p x (inl e) j =
      In-append x (table_entries (files f.file_number)) (all_entries fs)
        (inl (subst (λ p. In x (table_entries (files p.file_number))) e j))
  In-all_entries (f ∷ fs) p x (inr i) j =
      In-append x (table_entries (files f.file_number)) (all_entries fs)
        (inr (In-all_entries fs p x i j))

  module _ (fs : List FileMetaData) (k : Key) where
    -- The newest gathered entry is held by one of the files, and no file holds a newer one.
    pub gathered_newest :
        (x : Entry)
        → ((f : FileMetaData) → In f fs → Stored files f)
        → IsNewest k (all_entries fs) (some x)
        → ((p : FileMetaData) × (In p fs × (held files k p ≡ some x)))
          × ((q : FileMetaData) (b : Entry)
              → In q fs
              → held files k q ≡ some b
              → b.seq_no ≤ x.seq_no)
    gathered_newest x s (i, same, newest) =
        let (p, (j, at)) = all_entries-In fs x i in
        let st = s p j in
        let sorted : IsSorted (table_entries (files p.file_number)) =
          subst IsSorted (sym (Stored-held Table files p st)) st.1.1.sorted in
        (
          (p, (j, find-sorted k (table_entries (files p.file_number)) x sorted at same)),
          λ q b m h.
              let (n, e) = find-In k (table_entries (files q.file_number)) b h in
              let older =
                All-In-entry (NotNewer k x.seq_no) (all_entries fs) b newest
                  (In-all_entries fs q b m n) in
              ground arith,
        )

    pub gathered_none :
        IsNewest k (all_entries fs) none → (q : FileMetaData) → In q fs → held files k q ≡ none
    gathered_none newest q m = elim (Option-cases (held files k q)) [
      | inl h ↦ h
      | inr (b, h) ↦
          let (n, e) = find-In k (table_entries (files q.file_number)) b h in
          let other =
            All-In-entry (λ f. key_eq k f.key ≡ false) (all_entries fs) b newest
              (In-all_entries fs q b m n) in
          absurd cc
    ]
