-- ===== src/Engine/Layers/Reads.antt =====
-- A search of the tables finds the newest entry of the key.
use flash_store.Prelude.{
  ℕ, ◌≤◌, ◌≡◌, refl, ap, ap₂, sym, ◌∙◌, subst, List, [], ◌∷◌, Option, none, some, All, In, inl, inr,
  arith, Option-cases, Bool-cases, true, ◌⊎◌,
}
use mathlib.Core.List.{reverse, reverse_aux}
use flash_store.Bytes.{key_lt, eq_of_cmp, cmp_swap}
use flash_store.Compaction.Ranges.{Between}
use flash_store.Error.{ok}
use flash_store.Manifest.{FileMetaData, Levels}
use flash_store.Sstable.Block.Search.{find}
use flash_store.Tables.{Tables, answer_of}
use flash_store.Types.{Key, Entry}
use flash_store.Engine.Search.{or_else, search_files, in_range, search_levels, search_version}
use flash_store.Engine.Layers.{Held, Newer, NewestLast, held, Stored, table_entries, or_no_entries}
use flash_store.Engine.Reads.{All-reverse}

abbrev pub or_held : Option Entry → Option Entry → Option Entry
or_held none o = o
or_held (some e) o = some e

module _ (h : Held) (k : Key) where
  -- What the first file with the key holds, and what the last one does.
  abbrev pub first_held : List FileMetaData → Option Entry
  first_held [] = none
  first_held (f ∷ fs) = or_held (h k f) (first_held fs)

  abbrev pub last_held : List FileMetaData → Option Entry
  last_held [] = none
  last_held (f ∷ fs) = or_held (last_held fs) (h k f)

  abbrev pub first_below : Levels → Option Entry
  first_below [] = none
  first_below (l ∷ ls) = or_held (first_held l) (first_below ls)

  -- In search order: level 0 from its last file on, then level after level.
  abbrev pub first_of : Levels → Option Entry
  first_of [] = none
  first_of (l ∷ ls) = or_held (last_held l) (first_below ls)

or_held_assoc : (a b c : Option Entry) → or_held (or_held a b) c ≡ or_held a (or_held b c)
or_held_assoc none b c = refl
or_held_assoc (some e) b c = refl

or_held-none : (a : Option Entry) → or_held a none ≡ a
or_held-none none = refl
or_held-none (some e) = refl

first_held-reverse_aux :
    (h : Held) (k : Key) (xs r : List FileMetaData)
    → first_held h k (reverse_aux xs r) ≡ or_held (last_held h k xs) (first_held h k r)
first_held-reverse_aux h k [] r = refl
first_held-reverse_aux h k (x ∷ xs) r =
    first_held-reverse_aux h k xs (x ∷ r)
    ∙ sym (or_held_assoc (last_held h k xs) (h k x) (first_held h k r))

pub first_held-reverse :
    (h : Held) (k : Key) (xs : List FileMetaData) → first_held h k (reverse xs) ≡ last_held h k xs
first_held-reverse h k xs = first_held-reverse_aux h k xs [] ∙ or_held-none (last_held h k xs)

answer-or_held :
    (a b : Option Entry)
    → or_else (ok (answer_of a)) (ok (answer_of b)) ≡ ok (answer_of (or_held a b))
unfolding or_else
answer-or_held none b = refl
answer-or_held (some e) b = refl

outside :
    (lo hi k : Key) (es : List Entry)
    → All (λ e. Between lo hi e.key) es
    → (key_lt k lo ≡ true) ⊎ (key_lt hi k ≡ true)
    → find k es ≡ none
unfolding find
outside lo hi k [] r o = refl
outside lo hi k (e ∷ es) r o =
    ground (arith, outside lo hi k es r.1 o, eq_of_cmp e.key k, cmp_swap lo k, cmp_swap k hi, r.0)

pub Stored-held :
    (Table : Type 0) ⦃tables : Tables Table⦄ (files : ℕ → Option Table) (f : FileMetaData)
    (s : Stored files f)
    → table_entries (files f.file_number) ≡ s.1.1.entries
Stored-held Table files f (t, (there, sound)) =
    ap table_entries there ∙ ap or_no_entries sound.read_all

module _ {Table : Type 0} ⦃tables : Tables Table⦄ (files : ℕ → Option Table) (k : Key) where
  search_file :
      (f : FileMetaData) (fs : List FileMetaData) (t : Table) (o : Option Entry)
      → files f.file_number ≡ some t
      → tables.lookup t k ≡ ok (answer_of o)
      → search_files files k (f ∷ fs) ≡ or_else (ok (answer_of o)) (search_files files k fs)
  unfolding search_files
  search_file f fs t o there h = ground arith

  search_files-held :
      (l : List FileMetaData)
      → All (Stored files) l
      → search_files files k l ≡ ok (answer_of (first_held (held files) k l))
  unfolding search_files
  search_files-held [] s = refl
  search_files-held (f ∷ fs) ((t, (there, sound)), s) =
      let o = find k sound.entries in
      let first = first_held (held files) k fs in
      search_file f fs t o there (sound.lookup k)
      ∙ ap (or_else (ok (answer_of o))) (search_files-held fs s)
      ∙ answer-or_held o first
      ∙ ap (λ es. ok (answer_of (or_held (find k es) first)))
          (sym (Stored-held Table files f (t, (there, sound))))

  All-in_range :
      (P : FileMetaData → Type 0) (l : List FileMetaData) → All P l → All P (in_range k l)
  unfolding in_range
  All-in_range P [] h = tt
  All-in_range P (f ∷ fs) h = ground (arith, All-in_range P fs)

  outside-held :
      (f : FileMetaData)
      → Stored files f
      → (key_lt k f.smallest_key ≡ true) ⊎ (key_lt f.largest_key k ≡ true)
      → held files k f ≡ none
  outside-held f (t, (there, sound)) o =
      ap (find k) (Stored-held Table files f (t, (there, sound)))
      ∙ outside f.smallest_key f.largest_key k sound.entries sound.ranged o

  in_range-held :
      (l : List FileMetaData)
      → All (Stored files) l
      → first_held (held files) k (in_range k l) ≡ first_held (held files) k l
  unfolding in_range
  in_range-held [] s = refl
  in_range-held (f ∷ fs) (s, ss) =
      let rest = in_range-held fs ss in
      elim (Bool-cases (key_lt k f.smallest_key)) [
        | inl below ↦ rw below (
            rest
            ∙ ap (λ o. or_held o (first_held (held files) k fs))
                (sym (outside-held f s (inl below))))
        | inr p ↦ elim (Bool-cases (key_lt f.largest_key k)) [
          | inl above ↦ rw p (
              rw above (
                rest
                ∙ ap (λ o. or_held o (first_held (held files) k fs))
                    (sym (outside-held f s (inr above)))))
          | inr q ↦ rw p (rw q (ap (or_held (held files k f)) rest))
        ]
      ]

  search_levels-held :
      (ls : Levels)
      → All (All (Stored files)) ls
      → search_levels files k ls ≡ ok (answer_of (first_below (held files) k ls))
  unfolding search_levels
  search_levels-held [] s = refl
  search_levels-held (l ∷ ls) s =
      ap₂ or_else
        (search_files-held (in_range k l) (All-in_range (Stored files) l s.0)
          ∙ ap (λ o. ok (answer_of o)) (in_range-held l s.0))
        (search_levels-held ls s.1)
      ∙ answer-or_held (first_held (held files) k l) (first_below (held files) k ls)

  -- On sound tables a search answers by what the first file with the key holds.
  pub search_version-held :
      (ls : Levels)
      → All (All (Stored files)) ls
      → search_version files k ls ≡ ok (answer_of (first_of (held files) k ls))
  unfolding search_version
  search_version-held [] s = refl
  search_version-held (l ∷ ls) s =
      ap₂ or_else
        (search_files-held (reverse l) (All-reverse (Stored files) l s.0)
          ∙ ap (λ o. ok (answer_of o)) (first_held-reverse (held files) k l))
        (search_levels-held ls s.1)
      ∙ answer-or_held (last_held (held files) k l) (first_below (held files) k ls)

pub All-In :
    (P : FileMetaData → Type 0) (l : List FileMetaData) (f : FileMetaData) → All P l → In f l → P f
All-In P [] f a i = elim i [ ]
All-In P (g ∷ l) f a (inl same) = subst P (sym same) a.0
All-In P (g ∷ l) f a (inr i) = All-In P l f a.1 i

module _ (h : Held) (k : Key) where
  -- What is found is held.
  pub first_held-In :
      (l : List FileMetaData) (e : Entry)
      → first_held h k l ≡ some e
      → (f : FileMetaData) × (In f l × (h k f ≡ some e))
  first_held-In [] e p = absurd cc
  first_held-In (f ∷ fs) e p = elim (Option-cases (h k f)) [
    | inl q ↦
        let (g, (i, r)) =
          first_held-In fs e (sym (ap (λ o. or_held o (first_held h k fs)) q) ∙ p) in
        (g, (inr i, r))
    | inr (x, q) ↦ (f, (inl refl, q ∙ (sym (ap (λ o. or_held o (first_held h k fs)) q) ∙ p)))
  ]

  pub last_held-In :
      (l : List FileMetaData) (e : Entry)
      → last_held h k l ≡ some e
      → (f : FileMetaData) × (In f l × (h k f ≡ some e))
  last_held-In [] e p = absurd cc
  last_held-In (f ∷ fs) e p = elim (Option-cases (last_held h k fs)) [
    | inl q ↦ (f, (inl refl, sym (ap (λ o. or_held o (h k f)) q) ∙ p))
    | inr (x, q) ↦
        let (g, (i, r)) = last_held-In fs e (q ∙ (sym (ap (λ o. or_held o (h k f)) q) ∙ p)) in
        (g, (inr i, r))
  ]

  -- A file that holds the key is found, or one before it.
  pub first_held-finds :
      (l : List FileMetaData) (g : FileMetaData) (a : Entry)
      → In g l
      → h k g ≡ some a
      → (e : Entry) × (first_held h k l ≡ some e)
  first_held-finds [] g a i p = elim i [ ]
  first_held-finds (f ∷ fs) g a i p = elim (Option-cases (h k f)) [
    | inr (x, q) ↦ (x, ap (λ o. or_held o (first_held h k fs)) q)
    | inl q ↦ elim i [
      | inl same ↦ absurd cc
      | inr later ↦
          let (e, r) = first_held-finds fs g a later p in
          (e, ap (λ o. or_held o (first_held h k fs)) q ∙ r)
    ]
  ]

  -- What the last file with the key holds is the newest of its level.
  pub last_held-newest :
      (l : List FileMetaData) (g : FileMetaData) (a : Entry)
      → NewestLast h l
      → In g l
      → h k g ≡ some a
      → (e : Entry) × ((last_held h k l ≡ some e) × (a.seq_no ≤ e.seq_no))
  last_held-newest [] g a n i p = elim i [ ]
  last_held-newest (f ∷ fs) g a n (inr i) p =
      let (e, (q, le)) = last_held-newest fs g a n.1 i p in (e, (ap (λ o. or_held o (h k f)) q, le))
  last_held-newest (f ∷ fs) g a n (inl same) p = elim (Option-cases (last_held h k fs)) [
    | inl q ↦ (a, (ap (λ o. or_held o (h k f)) q ∙ (rw same at p), omega arith))
    | inr (x, q) ↦
        let (m, (i, r)) = last_held-In fs x q in
        let newer = All-In (λ g. Newer h g f) fs m n.0 i k x a r (rw same at p) in
        (x, (ap (λ o. or_held o (h k f)) q, omega arith))
  ]
