-- ===== src/Engine/Layers/Removed.antt =====
-- The files that a compaction removes: those of its task, at their levels.
use flash_store.Prelude.{
  ℕ, suc, ◌≡◌, refl, ap, sym, ◌∙◌, subst, List, [], ◌∷◌, ◌++◌, Option, In, inl, inr, arith, ◌⊎◌,
  Bool-cases, ◌==◌,
}
use flash_store.Compaction.{CompactionTask, delete_all}
use flash_store.Manifest.{FileMetaData, VersionEdit, new_edit}
use flash_store.Manifest.Members.{IsDeleted}
use flash_store.Engine.Compacting.{remove_files}

IsDeleted-snoc :
    (j n level m : ℕ) (ds : List (ℕ × ℕ))
    → IsDeleted j n (ds ++ (level, m) ∷ [])
    → IsDeleted j n ds ⊎ ((level ≡ j) × (m ≡ n))
IsDeleted-snoc j n level m [] (inl e) = inr e
IsDeleted-snoc j n level m [] (inr d) = absurd (elim d [ ])
IsDeleted-snoc j n level m ((l, x) ∷ ds) (inl e) = inl (inl e)
IsDeleted-snoc j n level m ((l, x) ∷ ds) (inr d) = elim (IsDeleted-snoc j n level m ds d) [
  | inl e ↦ inl (inr e)
  | inr e ↦ inr e
]

snoc-IsDeleted :
    (j n level m : ℕ) (ds : List (ℕ × ℕ))
    → IsDeleted j n ds ⊎ ((level ≡ j) × (m ≡ n))
    → IsDeleted j n (ds ++ (level, m) ∷ [])
snoc-IsDeleted j n level m [] (inl d) = elim d [ ]
snoc-IsDeleted j n level m [] (inr e) = inl e
snoc-IsDeleted j n level m ((l, x) ∷ ds) (inl (inl e)) = inl e
snoc-IsDeleted j n level m ((l, x) ∷ ds) (inl (inr d)) = inr (snoc-IsDeleted j n level m ds (inl d))
snoc-IsDeleted j n level m ((l, x) ∷ ds) (inr e) = inr (snoc-IsDeleted j n level m ds (inr e))

abbrev Names : ℕ → ℕ → ℕ → List FileMetaData → Type 0
Names j n level fs = (level ≡ j) × ((f : FileMetaData) × (In f fs × (f.file_number ≡ n)))

delete_all-Names :
    (j n level : ℕ) (fs : List FileMetaData) (edit : VersionEdit)
    → IsDeleted j n (delete_all level fs edit).deleted_files
    → IsDeleted j n edit.deleted_files ⊎ Names j n level fs
unfolding delete_all
delete_all-Names j n level [] edit d = inl d
delete_all-Names j n level (f ∷ fs) edit d = elim (delete_all-Names j n level fs _ d) [
  | inr (e, (g, (i, q))) ↦ inr (e, (g, (inr i, q)))
  | inl before ↦ elim (IsDeleted-snoc j n level f.file_number edit.deleted_files before) [
    | inl d ↦ inl d
    | inr (e, q) ↦ inr (e, (f, (inl refl, q)))
  ]
]

delete_all-keeps :
    (j n level : ℕ) (fs : List FileMetaData) (edit : VersionEdit)
    → IsDeleted j n edit.deleted_files
    → IsDeleted j n (delete_all level fs edit).deleted_files
unfolding delete_all
delete_all-keeps j n level [] edit d = d
delete_all-keeps j n level (f ∷ fs) edit d =
    delete_all-keeps j n level fs _
      (snoc-IsDeleted j n level f.file_number edit.deleted_files (inl d))

delete_all-deletes :
    (level : ℕ) (fs : List FileMetaData) (edit : VersionEdit) (f : FileMetaData)
    → In f fs
    → IsDeleted level f.file_number (delete_all level fs edit).deleted_files
unfolding delete_all
delete_all-deletes level [] edit f i = elim i [ ]
delete_all-deletes level (g ∷ fs) edit f (inl e) = delete_all-keeps level f.file_number level fs _ (
    snoc-IsDeleted level f.file_number level g.file_number edit.deleted_files
      (inr (refl, ap (λ x. x.file_number) (sym e))))
delete_all-deletes level (g ∷ fs) edit f (inr i) = delete_all-deletes level fs _ f i

-- The edit of a task before its output is added, and what it deletes.
abbrev pub task_edit : CompactionTask → VersionEdit
task_edit task =
    delete_all task.target_level task.target_input_files
      (delete_all task.level task.input_files new_edit)

abbrev pub removals : CompactionTask → List (ℕ × ℕ)
removals task = (task_edit task).deleted_files

module _ (task : CompactionTask) (next : task.target_level ≡ suc task.level) where
  pub removals-names :
      (j n : ℕ)
      → IsDeleted j n (removals task)
      → (f : FileMetaData) × (((j ≡ task.level) × In f task.input_files)
          ⊎ ((j ≡ suc task.level) × In f task.target_input_files))
        × (f.file_number ≡ n)
  removals-names j n d = elim (delete_all-Names j n task.target_level task.target_input_files _ d) [
    | inr (e, (f, (i, q))) ↦ (f, inr (sym e ∙ next, i), q)
    | inl before ↦ elim (delete_all-Names j n task.level task.input_files new_edit before) [
      | inr (e, (f, (i, q))) ↦ (f, inl (sym e, i), q)
      | inl d ↦ absurd (elim d [ ])
    ]
  ]

  pub removes_input :
      (f : FileMetaData)
      → In f task.input_files
      → IsDeleted task.level f.file_number (removals task)
  removes_input f i =
      delete_all-keeps task.level f.file_number task.target_level task.target_input_files _
        (delete_all-deletes task.level task.input_files new_edit f i)

  pub removes_target :
      (f : FileMetaData)
      → In f task.target_input_files
      → IsDeleted (suc task.level) f.file_number (removals task)
  removes_target f i =
      subst (λ j. IsDeleted j f.file_number (removals task)) next
        (delete_all-deletes task.target_level task.target_input_files _ f i)

-- A file that no deletion names is not removed.
pub remove_files-other :
    {A : Type 0} (files : ℕ → Option A) (ds : List (ℕ × ℕ)) (n : ℕ)
    → ((j : ℕ) → IsDeleted j n ds → ⊥)
    → remove_files files ds n ≡ files n
unfolding remove_files
remove_files-other files [] n h = refl
remove_files-other files ((level, m) ∷ ds) n h = elim (Bool-cases (m == n)) [
  | inl p ↦ absurd (h level (inl (refl, ground arith)))
  | inr p ↦ rw p (remove_files-other files ds n (λ j d. h j (inr d)))
]
