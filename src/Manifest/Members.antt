-- ===== src/Manifest/Members.antt =====
-- Which files a level has after an edit that deletes some and adds one.
use flash_store.Prelude.{
  ℕ, zero, suc, ◌<◌, ◌≡◌, refl, ap, sym, subst, ◌++◌, List, [], ◌∷◌, length, ◌==◌, if◌then◌else◌,
  arith, Bool-cases, inl, inr, In, ◌⊎◌,
}
use flash_store.Bytes.{key_le}
use flash_store.Manifest.{
  FileMetaData, Levels, at_level, without_file, insert_by_smallest, sort_by_smallest, push_file,
}
use flash_store.Manifest.Levels.{files_at, deleted_at, files_at-at_level}

-- The deletions name the file of the number at the level.
abbrev pub IsDeleted : ℕ → ℕ → List (ℕ × ℕ) → Type 0
IsDeleted j n [] = ⊥
IsDeleted j n ((level, m) ∷ ds) = ((level ≡ j) × (m ≡ n)) ⊎ IsDeleted j n ds

-- A level with a file is one of the levels.
pub files_at-In : (j : ℕ) (ls : Levels) (g : FileMetaData) → In g (files_at j ls) → j < length ls
files_at-In j [] g i = absurd (elim i [ ])
files_at-In zero (l ∷ ls) g i = omega arith
files_at-In (suc j) (l ∷ ls) g i = omega (arith, files_at-In j ls g i)

same_or_not : (a b : ℕ) → (a ≡ b) ⊎ (a ≡ b → ⊥)
same_or_not a b = ground arith

pub IsDeleted-or_not : (j n : ℕ) (ds : List (ℕ × ℕ)) → IsDeleted j n ds ⊎ (IsDeleted j n ds → ⊥)
IsDeleted-or_not j n [] = inr (λ h. h)
IsDeleted-or_not j n ((level, m) ∷ ds) = elim (IsDeleted-or_not j n ds) [
  | inl h ↦ inl (inr h)
  | inr other ↦ elim (same_or_not level j) [
    | inr p ↦ inr (λ h. elim h [ inl e ↦ p e.0 | inr d ↦ other d ])
    | inl p ↦ elim (same_or_not m n) [
      | inr q ↦ inr (λ h. elim h [ inl e ↦ q e.1 | inr d ↦ other d ])
      | inl q ↦ inl (inl (p, q))
    ]
  ]
]

without_file-In :
    (n : ℕ) (fs : List FileMetaData) (g : FileMetaData)
    → In g (without_file n fs)
    → In g fs × (n ≡ g.file_number → ⊥)
unfolding without_file
without_file-In n [] g i = absurd (elim i [ ])
without_file-In n (f ∷ fs) g i = elim (Bool-cases (f.file_number == n)) [
  | inl p ↦ let (j, q) = without_file-In n fs g (rw p at i) in (inr j, q)
  | inr p ↦ elim (rw p at i) [
    | inl e ↦ (inl e, λ h. let num = ap (λ x. x.file_number) e in ground arith)
    | inr k ↦ let (j, q) = without_file-In n fs g k in (inr j, q)
  ]
]

without_file-keeps :
    (n : ℕ) (fs : List FileMetaData) (g : FileMetaData)
    → In g fs
    → (n ≡ g.file_number → ⊥)
    → In g (without_file n fs)
unfolding without_file
without_file-keeps n [] g i h = elim i [ ]
without_file-keeps n (f ∷ fs) g i h = elim (Bool-cases (f.file_number == n)) [
  | inl p ↦ elim i [
    | inl e ↦ absurd (h (let num = ap (λ x. x.file_number) e in ground arith))
    | inr j ↦ rw p (without_file-keeps n fs g j h)
  ]
  | inr p ↦ elim i [ inl e ↦ rw p (inl e) | inr j ↦ rw p (inr (without_file-keeps n fs g j h)) ]
]

pub deleted_at-In :
    (j : ℕ) (ds : List (ℕ × ℕ)) (fs : List FileMetaData) (g : FileMetaData)
    → In g (deleted_at j ds fs)
    → In g fs × (IsDeleted j g.file_number ds → ⊥)
deleted_at-In j [] fs g i = (i, λ h. h)
deleted_at-In j ((level, m) ∷ ds) fs g i =
    let (k, rest) = deleted_at-In j ds (if level == j then without_file m fs else fs) g i in
    elim (Bool-cases (level == j)) [
      | inl p ↦
          let (here, other) = without_file-In m fs g (rw p at k) in
          (here, λ h. elim h [ inl e ↦ other e.1 | inr d ↦ rest d ])
      | inr p ↦ (rw p at k, λ h. elim h [ inl e ↦ ground arith | inr d ↦ rest d ])
    ]

pub deleted_at-keeps :
    (j : ℕ) (ds : List (ℕ × ℕ)) (fs : List FileMetaData) (g : FileMetaData)
    → In g fs
    → (IsDeleted j g.file_number ds → ⊥)
    → In g (deleted_at j ds fs)
deleted_at-keeps j [] fs g i h = i
deleted_at-keeps j ((level, m) ∷ ds) fs g i h =
    deleted_at-keeps j ds (if level == j then without_file m fs else fs) g
      (elim (Bool-cases (level == j)) [
        | inl p ↦ rw p (without_file-keeps m fs g i (λ e. h (inl (ground arith, e))))
        | inr p ↦ rw p i
      ])
      (λ d. h (inr d))

-- A level that the deletions do not name stays as it is.
pub deleted_at-other :
    (j : ℕ) (ds : List (ℕ × ℕ)) (fs : List FileMetaData)
    → ((n : ℕ) → IsDeleted j n ds → ⊥)
    → deleted_at j ds fs ≡ fs
deleted_at-other j [] fs h = refl
deleted_at-other j ((level, m) ∷ ds) fs h = elim (Bool-cases (level == j)) [
  | inl p ↦ absurd (h m (inl (ground arith, refl)))
  | inr p ↦ rw p (deleted_at-other j ds fs (λ n d. h n (inr d)))
]

insert-In :
    (x : FileMetaData) (ys : List FileMetaData) (g : FileMetaData)
    → In g (insert_by_smallest x ys)
    → In g (x ∷ ys)
unfolding insert_by_smallest
insert-In x [] g i = i
insert-In x (y ∷ ys) g i = elim (Bool-cases (key_le x.smallest_key y.smallest_key)) [
  | inl p ↦ rw p at i
  | inr p ↦ elim (rw p at i) [
    | inl e ↦ inr (inl e)
    | inr j ↦ elim (insert-In x ys g j) [ inl e ↦ inl e | inr k ↦ inr (inr k) ]
  ]
]

insert-keeps :
    (x : FileMetaData) (ys : List FileMetaData) (g : FileMetaData)
    → In g (x ∷ ys)
    → In g (insert_by_smallest x ys)
unfolding insert_by_smallest
insert-keeps x [] g i = i
insert-keeps x (y ∷ ys) g i = elim (Bool-cases (key_le x.smallest_key y.smallest_key)) [
  | inl p ↦ rw p i
  | inr p ↦ rw p (elim i [
    | inl e ↦ inr (insert-keeps x ys g (inl e))
    | inr j ↦ elim j [ inl e ↦ inl e | inr k ↦ inr (insert-keeps x ys g (inr k)) ]
  ])
]

sort-In : (xs : List FileMetaData) (g : FileMetaData) → In g (sort_by_smallest xs) → In g xs
unfolding sort_by_smallest
sort-In [] g i = i
sort-In (x ∷ xs) g i = elim (insert-In x (sort_by_smallest xs) g i) [
  | inl e ↦ inl e
  | inr j ↦ inr (sort-In xs g j)
]

sort-keeps : (xs : List FileMetaData) (g : FileMetaData) → In g xs → In g (sort_by_smallest xs)
unfolding sort_by_smallest
sort-keeps [] g i = i
sort-keeps (x ∷ xs) g i =
    insert-keeps x (sort_by_smallest xs) g
      (elim i [ inl e ↦ inl e | inr j ↦ inr (sort-keeps xs g j) ])

snoc-In : (xs : List FileMetaData) (x g : FileMetaData) → In g (xs ++ x ∷ []) → In g xs ⊎ (g ≡ x)
snoc-In [] x g (inl e) = inr e
snoc-In [] x g (inr i) = absurd (elim i [ ])
snoc-In (y ∷ xs) x g (inl e) = inl (inl e)
snoc-In (y ∷ xs) x g (inr i) = elim (snoc-In xs x g i) [ inl j ↦ inl (inr j) | inr e ↦ inr e ]

snoc-keeps : (xs : List FileMetaData) (x g : FileMetaData) → In g xs ⊎ (g ≡ x) → In g (xs ++ x ∷ [])
snoc-keeps [] x g (inl i) = elim i [ ]
snoc-keeps [] x g (inr e) = inl e
snoc-keeps (y ∷ xs) x g (inl (inl e)) = inl e
snoc-keeps (y ∷ xs) x g (inl (inr i)) = inr (snoc-keeps xs x g (inl i))
snoc-keeps (y ∷ xs) x g (inr e) = inr (snoc-keeps xs x g (inr e))

pub push_file-In :
    (level : ℕ) (x : FileMetaData) (fs : List FileMetaData) (g : FileMetaData)
    → In g (push_file level x fs)
    → In g fs ⊎ (g ≡ x)
unfolding push_file
push_file-In zero x fs g i = snoc-In fs x g i
push_file-In (suc level) x fs g i = snoc-In fs x g (sort-In (fs ++ x ∷ []) g i)

pub push_file-keeps :
    (level : ℕ) (x : FileMetaData) (fs : List FileMetaData) (g : FileMetaData)
    → In g fs ⊎ (g ≡ x)
    → In g (push_file level x fs)
unfolding push_file
push_file-keeps zero x fs g i = snoc-keeps fs x g i
push_file-keeps (suc level) x fs g i = sort-keeps (fs ++ x ∷ []) g (snoc-keeps fs x g i)

module _ (t : ℕ) (x : FileMetaData) (ls : Levels) (j : ℕ) (g : FileMetaData) where
  -- A file that a level has after an addition.
  pub added-In :
      j < length ls
      → In g (files_at j (at_level t (push_file t x) ls))
      → In g (files_at j ls) ⊎ ((j ≡ t) × (g ≡ x))
  added-In lt i =
      let now : In g (if t == j then push_file t x (files_at j ls) else files_at j ls) =
        subst (In g) (files_at-at_level t j (push_file t x) ls lt) i in
      elim (Bool-cases (t == j)) [
        | inl p ↦ elim (push_file-In t x (files_at j ls) g (rw p at now)) [
          | inl k ↦ inl k
          | inr e ↦ inr (ground arith, e)
        ]
        | inr p ↦ inl (rw p at now)
      ]

  pub added-keeps :
      j < length ls
      → In g (files_at j ls) ⊎ ((j ≡ t) × (g ≡ x))
      → In g (files_at j (at_level t (push_file t x) ls))
  added-keeps lt i =
      subst (In g) (sym (files_at-at_level t j (push_file t x) ls lt)) (elim (Bool-cases (t == j)) [
        | inl p ↦
            rw p
              (push_file-keeps t x (files_at j ls) g (elim i [ inl k ↦ inl k | inr e ↦ inr e.1 ]))
        | inr p ↦ rw p (elim i [ inl k ↦ k | inr e ↦ ground arith ])
      ])
