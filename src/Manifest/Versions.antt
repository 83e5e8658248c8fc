-- ===== src/Manifest/Versions.antt =====
-- The invariant of the version set, and what `log_and_apply` makes of it.
use mathlib.Core.List.{Perm}
use flash_store.Prelude.{
  ℕ, zero, suc, ◌+◌, ◌^◌, ◌⊎◌, ◌<◌, ◌≤◌, ◌≡◌, ◌∙◌, ◌++◌, List, [], ◌∷◌, Option, none, some, length,
  ltb, ◌==◌, if◌then◌else◌, arith, All, All-imp, All-append, true, false, length-replicate,
  Bool-cases, inl, inr, replicate,
}
use flash_store.Bytes.{key_le, cmp_swap, lt_trans, eq_of_cmp}
use flash_store.Types.{Key}
use flash_store.Manifest.{
  take_file_number, FileMetaData, VersionEdit, VersionSet, Levels, new_set, at_level, without_file,
  delete_files, insert_by_smallest, sort_by_smallest, push_file, add_files, raise_next, raise_over,
  raise_to_some, log_and_apply,
}
use flash_store.Manifest.Levels.{
  files_at, not_named, added_at, deleted_at-not_named, length-at_level, files_at-delete_files,
  files_at-add_files, length-delete_files, length-add_files,
}

-- An edit keeps the number of levels, and leaves at each level the files that it does not name
-- there for deletion together with the files that it adds there, up to their order.
pub files_at-log_and_apply :
    (vs : VersionSet) (edit : VersionEdit) (j : ℕ)
    → j < length vs.levels
    → (length (log_and_apply vs edit).levels ≡ length vs.levels)
      × Perm
          (files_at j (log_and_apply vs edit).levels)
          (not_named j edit.deleted_files (files_at j vs.levels) ++ added_at j edit.new_files)
unfolding log_and_apply
files_at-log_and_apply vs edit j h =
    let ds = delete_files edit.deleted_files vs.levels in
    let len = length-delete_files edit.deleted_files vs.levels in
    (
      length-add_files edit.new_files ds ∙ len,
      rw
          (← files_at-delete_files j edit.deleted_files vs.levels h
            ∙ deleted_at-not_named j edit.deleted_files (files_at j vs.levels))
          (files_at-add_files j edit.new_files ds (rw len h)),
    )

-- The files of a level by ascending smallest key.
abbrev LeKey : FileMetaData → FileMetaData → Type 0
LeKey f g = key_le f.smallest_key g.smallest_key ≡ true

abbrev pub IsOrdered : List FileMetaData → Type 0
IsOrdered [] = Unit
IsOrdered (f ∷ fs) = All (LeKey f) fs × IsOrdered fs

-- Level 0 is in the order of arrival.
abbrev pub AboveZeroOrdered : Levels → Type 0
AboveZeroOrdered [] = Unit
AboveZeroOrdered (l ∷ ls) = All IsOrdered ls

abbrev pub Below : ℕ → List FileMetaData → Type 0
Below n = All (λ f. f.file_number < n)

pub record IsValid (vs : VersionSet) : Type 0 where
  pub count : length vs.levels ≡ vs.max_levels
  pub numbers : All (Below vs.next_file_number) vs.levels
  pub ordered : AboveZeroOrdered vs.levels

module _ (P : FileMetaData → Type 0) where
  All-without_file : (n : ℕ) (fs : List FileMetaData) → All P fs → All P (without_file n fs)
  unfolding without_file
  All-without_file n [] h = tt
  All-without_file n (f ∷ fs) h = ground (arith, All-without_file n fs)

  All-insert :
      (x : FileMetaData) (ys : List FileMetaData) → P x → All P ys → All P (insert_by_smallest x ys)
  unfolding insert_by_smallest
  All-insert x [] p h = (p, tt)
  All-insert x (y ∷ ys) p h = ground (arith, All-insert x ys)

  All-sort : (xs : List FileMetaData) → All P xs → All P (sort_by_smallest xs)
  unfolding sort_by_smallest
  All-sort [] h = tt
  All-sort (x ∷ xs) h = All-insert x (sort_by_smallest xs) h.0 (All-sort xs h.1)

  All-push_file :
      (level : ℕ) (x : FileMetaData) (fs : List FileMetaData)
      → P x
      → All P fs
      → All P (push_file level x fs)
  unfolding push_file
  All-push_file zero x fs p h = All-append P fs (x ∷ []) h (p, tt)
  All-push_file (suc level) x fs p h = All-sort (fs ++ x ∷ []) (All-append P fs (x ∷ []) h (p, tt))

LeKey-trans : (a b c : FileMetaData) → LeKey a b → LeKey b c → LeKey a c
LeKey-trans a b c p q =
    let (x, y, z) : Key × Key × Key = (a.smallest_key, b.smallest_key, c.smallest_key) in
    ground (
      arith,
      cmp_swap x y,
      cmp_swap y z,
      cmp_swap x z,
      eq_of_cmp x y,
      eq_of_cmp y z,
      lt_trans x y z,
    )

LeKey-total : (a b : FileMetaData) → key_le a.smallest_key b.smallest_key ≡ false → LeKey b a
LeKey-total a b h = ground (arith, cmp_swap a.smallest_key b.smallest_key)

insert-IsOrdered :
    (x : FileMetaData) (ys : List FileMetaData) → IsOrdered ys → IsOrdered (insert_by_smallest x ys)
unfolding insert_by_smallest
insert-IsOrdered x [] h = (tt, tt)
insert-IsOrdered x (y ∷ ys) h = elim (Bool-cases (key_le x.smallest_key y.smallest_key)) [
  | inl p ↦ rw p ((p, All-imp (LeKey y) (LeKey x) (λ z. LeKey-trans x y z p) ys h.0), h)
  | inr p ↦ rw p (All-insert (LeKey y) x ys (LeKey-total x y p) h.0, insert-IsOrdered x ys h.1)
]

sort-IsOrdered : (xs : List FileMetaData) → IsOrdered (sort_by_smallest xs)
unfolding sort_by_smallest
sort-IsOrdered [] = tt
sort-IsOrdered (x ∷ xs) = insert-IsOrdered x (sort_by_smallest xs) (sort-IsOrdered xs)

without_file-IsOrdered :
    (n : ℕ) (fs : List FileMetaData) → IsOrdered fs → IsOrdered (without_file n fs)
unfolding without_file
without_file-IsOrdered n [] h = tt
without_file-IsOrdered n (f ∷ fs) h = elim (Bool-cases (f.file_number == n)) [
  | inl p ↦ rw p (without_file-IsOrdered n fs h.1)
  | inr p ↦ rw p (All-without_file (LeKey f) n fs h.0, without_file-IsOrdered n fs h.1)
]

All-at_level :
    (Q : List FileMetaData → Type 0) (i : ℕ) (f : List FileMetaData → List FileMetaData)
    (ls : Levels)
    → ((l : List FileMetaData) → i < length ls → Q l → Q (f l))
    → All Q ls
    → All Q (at_level i f ls)
unfolding at_level
All-at_level Q i f [] k h = tt
All-at_level Q zero f (l ∷ ls) k h = (k l (omega arith) h.0, h.1)
All-at_level Q (suc i) f (l ∷ ls) k h = (h.0, All-at_level Q i f ls (λ m lt. k m (omega arith)) h.1)

AboveZeroOrdered-at_level :
    (i : ℕ) (f : List FileMetaData → List FileMetaData) (ls : Levels)
    → ((l : List FileMetaData) → 0 < i → IsOrdered l → IsOrdered (f l))
    → AboveZeroOrdered ls
    → AboveZeroOrdered (at_level i f ls)
unfolding at_level
AboveZeroOrdered-at_level i f [] k h = tt
AboveZeroOrdered-at_level zero f (l ∷ ls) k h = h
AboveZeroOrdered-at_level (suc i) f (l ∷ ls) k h =
    All-at_level IsOrdered i f ls (λ m _. k m (omega arith)) h

delete_files-keeps :
    (n : ℕ) (ds : List (ℕ × ℕ)) (ls : Levels)
    → All (Below n) ls
    → AboveZeroOrdered ls
    → All (Below n) (delete_files ds ls) × AboveZeroOrdered (delete_files ds ls)
unfolding delete_files
delete_files-keeps n [] ls b o = (b, o)
delete_files-keeps n ((level, m) ∷ ds) ls b o =
    delete_files-keeps n ds (at_level level (without_file m) ls)
      (All-at_level (Below n) level (without_file m) ls
        (λ l _. All-without_file (λ f. f.file_number < n) m l) b)
      (AboveZeroOrdered-at_level level (without_file m) ls (λ l _. without_file-IsOrdered m l) o)

push_file-IsOrdered :
    (level : ℕ) (x : FileMetaData) (fs : List FileMetaData)
    → 0 < level
    → IsOrdered (push_file level x fs)
unfolding push_file
push_file-IsOrdered zero x fs h = absurd (omega arith)
push_file-IsOrdered (suc level) x fs h = sort-IsOrdered (fs ++ x ∷ [])

Below-mono : (n m : ℕ) → n ≤ m → (ls : Levels) → All (Below n) ls → All (Below m) ls
Below-mono n m h =
    All-imp (Below n) (Below m)
      (All-imp (λ f. f.file_number < n) (λ f. f.file_number < m) (λ f lt. omega arith))

-- A file number below the counter, or one above which there is another.
abbrev pub Room : ℕ → ℕ × FileMetaData → Type 0
Room n (level, meta) = (meta.file_number < n) ⊎ (meta.file_number + 1 < 2 ^ 64)

-- The new files of an edit have numbers above which there is another.
abbrev pub NumbersFit : VersionEdit → Type 0
NumbersFit edit = All (λ (x : ℕ × FileMetaData). x.1.file_number + 1 < 2 ^ 64) edit.new_files

pub NumbersFit-Room : (n : ℕ) (edit : VersionEdit) → NumbersFit edit → All (Room n) edit.new_files
NumbersFit-Room n edit =
    All-imp (λ (x : ℕ × FileMetaData). x.1.file_number + 1 < 2 ^ 64) (Room n) (λ x h. inr h)
      edit.new_files

Room-mono : (n m : ℕ) → n ≤ m → (ms : List (ℕ × FileMetaData)) → All (Room n) ms → All (Room m) ms
Room-mono n m h = All-imp (Room n) (Room m) (λ x. wider x)
  where
    wider : (x : ℕ × FileMetaData) → Room n x → Room m x
    wider (level, meta) (inl lt) = inl (omega arith)
    wider (level, meta) (inr lt) = inr lt

-- The counter after one addition, in terms of the number of levels.
abbrev raised : ℕ → ℕ → FileMetaData → ℕ → ℕ
raised level levels meta next = if ltb level levels then raise_over next meta.file_number else next

raised_bounds :
    (level levels : ℕ) (meta : FileMetaData) (next : ℕ)
    → Room next (level, meta)
    → (next ≤ raised level levels meta next)
      × (level < levels → meta.file_number < raised level levels meta next)
raised_bounds level levels meta next (inl room) = (ground arith, λ h. ground arith)
raised_bounds level levels meta next (inr room) = (ground arith, λ h. ground arith)

add_files-keeps :
    (ms : List (ℕ × FileMetaData)) (ls : Levels) (n : ℕ)
    → All (Below n) ls
    → AboveZeroOrdered ls
    → All (Room n) ms
    → All (Below (raise_next ms (length ls) n)) (add_files ms ls)
      × AboveZeroOrdered (add_files ms ls)
unfolding add_files raise_next
add_files-keeps [] ls n b o r = (b, o)
add_files-keeps ((level, meta) ∷ ms) ls n b o (r, rs) =
    let f = push_file level meta in
    let m = raised level (length ls) meta n in
    let (grows, fits) = raised_bounds level (length ls) meta n r in
    let rest =
      add_files-keeps ms (at_level level f ls) m
        (All-at_level (Below m) level f ls
          (λ l h. All-push_file (λ g. g.file_number < m) level meta l (fits h))
          (Below-mono n m grows ls b))
        (AboveZeroOrdered-at_level level f ls (λ l h _. push_file-IsOrdered level meta l h) o)
        (Room-mono n m grows ms rs) in
    rw length-at_level at rest

raise_next-ge :
    (ms : List (ℕ × FileMetaData)) (levels n : ℕ) → All (Room n) ms → n ≤ raise_next ms levels n
unfolding raise_next
raise_next-ge [] levels n r = omega arith
raise_next-ge ((level, meta) ∷ ms) levels n (r, rs) =
    let grows = (raised_bounds level levels meta n r).0 in
    omega (
      arith,
      raise_next-ge ms levels (raised level levels meta n) (Room-mono n _ grows ms rs),
      grows,
    )

pub raise_to_some-ge : (o : Option ℕ) (n : ℕ) → n ≤ raise_to_some o n
raise_to_some-ge none n = omega arith
raise_to_some-ge (some m) n = ground arith

empty_numbers : (n : ℕ) → All (Below 1) (replicate n [])
empty_numbers zero = tt
empty_numbers (suc n) = (tt, empty_numbers n)

empty_ordered : (n : ℕ) → AboveZeroOrdered (replicate n [])
empty_ordered zero = tt
empty_ordered (suc n) = all n
  where
    all : (n : ℕ) → All IsOrdered (replicate n [])
    all zero = tt
    all (suc n) = (tt, all n)

pub new_set-IsValid : (max_levels : ℕ) → IsValid (new_set max_levels)
new_set-IsValid max_levels = record {
  count = length-replicate max_levels [];
  numbers = empty_numbers max_levels;
  ordered = empty_ordered max_levels;
}

-- The next file number can be taken without wrapping around.
abbrev pub HasNumber : VersionSet → Type 0
HasNumber vs = vs.next_file_number + 1 < 2 ^ 64

pub take_file_number-IsValid :
    (vs : VersionSet) → HasNumber vs → IsValid vs → IsValid (take_file_number vs).0
take_file_number-IsValid vs room v = record {
  count = v.count;
  numbers = Below-mono vs.next_file_number _ (omega arith) vs.levels v.numbers;
  ordered = v.ordered;
}

-- If each new file of an edit has a number below the next file number or below 2^64 - 1: applying
-- an edit to a well-formed version set keeps the number of levels, the order of the files above
-- level 0 and that the next file number is above every number in use; and no counter goes down.
pub log_and_apply-IsValid :
    (vs : VersionSet) (edit : VersionEdit)
    → All (Room vs.next_file_number) edit.new_files
    → IsValid vs
    → IsValid (log_and_apply vs edit)
      × (vs.next_file_number ≤ (log_and_apply vs edit).next_file_number)
      × (vs.last_sequence ≤ (log_and_apply vs edit).last_sequence)
unfolding log_and_apply
log_and_apply-IsValid vs edit room v =
    let ds = delete_files edit.deleted_files vs.levels in
    let len = length-delete_files edit.deleted_files vs.levels in
    let kept =
      delete_files-keeps vs.next_file_number edit.deleted_files vs.levels v.numbers v.ordered in
    let n = raise_next edit.new_files (length vs.levels) vs.next_file_number in
    let added : All (Below n) (add_files edit.new_files ds)
        × AboveZeroOrdered (add_files edit.new_files ds) =
      rw len at (add_files-keeps edit.new_files ds vs.next_file_number kept.0 kept.1 room) in
    (
      record {
        count = length-add_files edit.new_files ds ∙ len ∙ v.count;
        numbers =
            Below-mono n (raise_to_some edit.next_file_number n)
              (raise_to_some-ge edit.next_file_number n) (add_files edit.new_files ds) added.0;
        ordered = added.1;
      },
      omega (
        arith,
        raise_next-ge edit.new_files (length vs.levels) vs.next_file_number room,
        raise_to_some-ge edit.next_file_number n,
      ),
      raise_to_some-ge edit.last_sequence vs.last_sequence,
    )
