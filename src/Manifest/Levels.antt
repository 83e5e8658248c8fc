-- ===== src/Manifest/Levels.antt =====
-- What an edit does to the files of one level.
use mathlib.Core.List.{Perm}
use mathlib.Core.List.Perm
use flash_store.Prelude.{
  ℕ, zero, suc, ◌<◌, ◌≡◌, refl, ap, sym, ◌∙◌, ◌++◌, Bool, false, ◌&&◌, ◌||◌, List, [], ◌∷◌, length,
  ◌==◌, if◌then◌else◌, arith, Bool-cases, inl, inr, append-nil, append_assoc,
}
use flash_store.Bytes.{key_le}
use flash_store.Manifest.{
  FileMetaData, Levels, at_level, without_file, delete_files, insert_by_smallest, sort_by_smallest,
  push_file, add_files,
}

-- The files of a level; none where there is no such level.
abbrev pub files_at : ℕ → Levels → List FileMetaData
files_at i [] = []
files_at zero (l ∷ ls) = l
files_at (suc i) (l ∷ ls) = files_at i ls

pub length-at_level :
    (i : ℕ) (f : List FileMetaData → List FileMetaData) (ls : Levels)
    → length (at_level i f ls) ≡ length ls
unfolding at_level
length-at_level i f [] = refl
length-at_level zero f (l ∷ ls) = refl
length-at_level (suc i) f (l ∷ ls) = ap suc (length-at_level i f ls)

pub files_at-at_level :
    (i j : ℕ) (f : List FileMetaData → List FileMetaData) (ls : Levels)
    → j < length ls
    → files_at j (at_level i f ls) ≡ (if i == j then f (files_at j ls) else files_at j ls)
unfolding at_level
files_at-at_level i j f [] h = absurd (omega arith)
files_at-at_level zero zero f (l ∷ ls) h = refl
files_at-at_level zero (suc j) f (l ∷ ls) h = ground arith
files_at-at_level (suc i) zero f (l ∷ ls) h = ground arith
files_at-at_level (suc i) (suc j) f (l ∷ ls) h = ground (arith, files_at-at_level i j f ls)

-- The deletions and the additions of an edit that concern one level.
abbrev pub deleted_at : ℕ → List (ℕ × ℕ) → List FileMetaData → List FileMetaData
deleted_at j [] fs = fs
deleted_at j ((level, n) ∷ ds) fs = deleted_at j ds (if level == j then without_file n fs else fs)

-- Whether an edit names a file of a level for deletion, and the files of it that it does not name.
abbrev pub is_named : ℕ → List (ℕ × ℕ) → FileMetaData → Bool
is_named j [] f = false
is_named j ((level, n) ∷ ds) f = ((level == j) && (f.file_number == n)) || is_named j ds f

abbrev pub not_named : ℕ → List (ℕ × ℕ) → List FileMetaData → List FileMetaData
not_named j ds [] = []
not_named j ds (f ∷ fs) = let rest = not_named j ds fs in if is_named j ds f then rest else f ∷ rest

not_named-none : (j : ℕ) (fs : List FileMetaData) → not_named j [] fs ≡ fs
not_named-none j [] = refl
not_named-none j (f ∷ fs) = ap (◌∷◌ f) (not_named-none j fs)

not_named-step :
    (j level n : ℕ) (ds : List (ℕ × ℕ)) (fs : List FileMetaData)
    → not_named j ((level, n) ∷ ds) fs
      ≡ not_named j ds (if level == j then without_file n fs else fs)
unfolding without_file
not_named-step j level n ds [] = ground arith
not_named-step j level n ds (f ∷ fs) =
    let rest = not_named-step j level n ds fs in
    elim (Bool-cases (level == j)) [
      | inl here ↦ elim (Bool-cases (f.file_number == n)) [
        | inl same ↦ rw here (rw same (rw here at rest))
        | inr other ↦
            rw here (rw other (ap (λ l. if is_named j ds f then l else f ∷ l) (rw here at rest)))
      ]
      | inr there ↦ rw there (ap (λ l. if is_named j ds f then l else f ∷ l) (rw there at rest))
    ]

pub deleted_at-not_named :
    (j : ℕ) (ds : List (ℕ × ℕ)) (fs : List FileMetaData) → deleted_at j ds fs ≡ not_named j ds fs
deleted_at-not_named j [] fs = sym (not_named-none j fs)
deleted_at-not_named j ((level, n) ∷ ds) fs =
    deleted_at-not_named j ds (if level == j then without_file n fs else fs)
    ∙ sym (not_named-step j level n ds fs)

abbrev pub added_at : ℕ → List (ℕ × FileMetaData) → List FileMetaData
added_at j [] = []
added_at j ((level, meta) ∷ ms) = if level == j then meta ∷ added_at j ms else added_at j ms

pub files_at-delete_files :
    (j : ℕ) (ds : List (ℕ × ℕ)) (ls : Levels)
    → j < length ls
    → files_at j (delete_files ds ls) ≡ deleted_at j ds (files_at j ls)
unfolding delete_files
files_at-delete_files j [] ls h = refl
files_at-delete_files j ((level, n) ∷ ds) ls h =
    files_at-delete_files j ds (at_level level (without_file n) ls)
      (rw (length-at_level level (without_file n) ls) h)
    ∙ ap (deleted_at j ds) (files_at-at_level level j (without_file n) ls h)

pub length-delete_files :
    (ds : List (ℕ × ℕ)) (ls : Levels) → length (delete_files ds ls) ≡ length ls
unfolding delete_files
length-delete_files [] ls = refl
length-delete_files ((level, n) ∷ ds) ls =
    length-delete_files ds (at_level level (without_file n) ls)
    ∙ length-at_level level (without_file n) ls

pub length-add_files :
    (ms : List (ℕ × FileMetaData)) (ls : Levels) → length (add_files ms ls) ≡ length ls
unfolding add_files
length-add_files [] ls = refl
length-add_files ((level, meta) ∷ ms) ls =
    length-add_files ms (at_level level (push_file level meta) ls)
    ∙ length-at_level level (push_file level meta) ls

insert_by_smallest-perm :
    (x : FileMetaData) (ys : List FileMetaData) → Perm (insert_by_smallest x ys) (x ∷ ys)
unfolding insert_by_smallest
insert_by_smallest-perm x [] = Perm.refl (x ∷ [])
insert_by_smallest-perm x (y ∷ ys) = elim (Bool-cases (key_le x.smallest_key y.smallest_key)) [
  | inl p ↦ rw p (Perm.refl (x ∷ y ∷ ys))
  | inr p ↦ rw p (Perm.trans (Perm.cons y (insert_by_smallest-perm x ys)) (Perm.swap x y ys))
]

sort_by_smallest-perm : (xs : List FileMetaData) → Perm (sort_by_smallest xs) xs
unfolding sort_by_smallest
sort_by_smallest-perm [] = Perm.refl []
sort_by_smallest-perm (x ∷ xs) =
    Perm.trans (insert_by_smallest-perm x (sort_by_smallest xs))
      (Perm.cons x (sort_by_smallest-perm xs))

push_file-perm :
    (level : ℕ) (x : FileMetaData) (fs : List FileMetaData)
    → Perm (push_file level x fs) (fs ++ x ∷ [])
unfolding push_file
push_file-perm zero x fs = Perm.refl (fs ++ x ∷ [])
push_file-perm (suc level) x fs = sort_by_smallest-perm (fs ++ x ∷ [])

pub files_at-add_files :
    (j : ℕ) (ms : List (ℕ × FileMetaData)) (ls : Levels)
    → j < length ls
    → Perm (files_at j (add_files ms ls)) (files_at j ls ++ added_at j ms)
unfolding add_files
files_at-add_files j [] ls h = rw append-nil (Perm.refl (files_at j ls))
files_at-add_files j ((level, meta) ∷ ms) ls h =
    let f = push_file level meta in
    let rest = files_at-add_files j ms (at_level level f ls) (rw (length-at_level level f ls) h) in
    elim (Bool-cases (level == j)) [
      | inl same ↦
          let now : files_at j (at_level level f ls) ≡ f (files_at j ls) =
            files_at-at_level level j f ls h ∙ (rw same) in
          rw same (
            Perm.trans rest (
              rw now (
                Perm.trans
                  (Perm.append_right (added_at j ms) (push_file-perm level meta (files_at j ls)))
                  (rw append_assoc (Perm.refl _)))))
      | inr other ↦
          let now : files_at j (at_level level f ls) ≡ files_at j ls =
            files_at-at_level level j f ls h ∙ (rw other) in
          rw other (rw now at rest)
    ]
