-- ===== src/Engine/Layers/Flushed.antt =====
-- A new table of level 0 hides what the tables held before.
use flash_store.Prelude.{
  ℕ, ◌<◌, ◌≡◌, refl, ap, sym, ◌∙◌, subst, List, [], ◌∷◌, ◌++◌, Option, some, In, inl, inr, arith,
  ◌⊎◌, All-append,
}
use flash_store.Engine.Flushing.{update_file}
use flash_store.Error.{ok}
use flash_store.Manifest.{FileMetaData, Levels, at_level, push_file}
use flash_store.Manifest.Levels.{files_at, length-at_level}
use flash_store.Manifest.Members.{files_at-In, added-In}
use flash_store.Sstable.Block.Search.{find}
use flash_store.Tables.{Tables}
use flash_store.Types.{Key, Entry}
use flash_store.Engine.Layers.{
  Held, Newer, NewestLast, Across, ApartAt, Numbered, IsLayered, held, Stored, table_entries,
  or_no_entries,
}
use flash_store.Engine.Layers.Compacted.{update_file-other, update_file-same}
use flash_store.Engine.Layers.Kept.{NewestLast-same}
use flash_store.Engine.Layers.Newest.{IsHeld}

NewestLast-snoc :
    (h : Held) (l : List FileMetaData) (f : FileMetaData)
    → NewestLast h l
    → ((g : FileMetaData) → In g l → Newer h f g)
    → NewestLast h (l ++ f ∷ [])
NewestLast-snoc h [] f n newer = (tt, tt)
NewestLast-snoc h (g ∷ l) f n newer = (
  All-append (λ x. Newer h x g) l (f ∷ []) n.0 (newer g (inl refl), tt),
  NewestLast-snoc h l f n.1 (λ x i. newer x (inr i)),
)

module _ (Table : Type 0) ⦃tables : Tables Table⦄ (files : ℕ → Option Table) (ls : Levels)
    (f : FileMetaData) (t : Table) (es : List Entry) (layered : IsLayered (held files) ls)
    (stored : (j : ℕ) (g : FileMetaData) → In g (files_at j ls) → Stored files g)
    (below : (j : ℕ) (g : FileMetaData) → In g (files_at j ls) → g.file_number < f.file_number)
    (read : tables.read_all t ≡ ok es)
    (newer : (k : Key) (a x : Entry)
      → find k es ≡ some a
      → IsHeld (held files) k ls x
      → x.seq_no < a.seq_no) where
  abbrev new_files : ℕ → Option Table
  new_files = update_file files f.file_number t

  abbrev new_levels : Levels
  new_levels = at_level 0 (push_file 0 f) ls

  old_held :
      (j : ℕ) (g : FileMetaData)
      → In g (files_at j ls)
      → (k : Key) → held new_files k g ≡ held files k g
  old_held j g i k =
      ap (λ o. find k (table_entries o))
        (update_file-other files f.file_number t g.file_number (below j g i))

  new_held : (k : Key) → held new_files k f ≡ find k es
  new_held k =
      ap (λ o. find k (table_entries o)) (update_file-same files f.file_number t)
      ∙ ap (λ r. find k (or_no_entries r)) read

  old_or_new :
      (j : ℕ) (g : FileMetaData)
      → In g (files_at j new_levels)
      → In g (files_at j ls) ⊎ ((j ≡ 0) × (g ≡ f))
  old_or_new j g i =
      added-In 0 f ls j g
        (omega (arith, files_at-In j new_levels g i, length-at_level 0 (push_file 0 f) ls)) i

  new-Newer : (j : ℕ) (g : FileMetaData) → In g (files_at j ls) → Newer (held new_files) f g
  new-Newer j g i k a b p q =
      newer k a b (sym (new_held k) ∙ p) (j, (g, (i, sym (old_held j g i k) ∙ q)))

  -- An entry that is held after the flush was held before, or is one of the flushed.
  pub flushed-IsHeld :
      (k : Key) (e : Entry)
      → IsHeld (held new_files) k new_levels e
      → IsHeld (held files) k ls e ⊎ (find k es ≡ some e)
  flushed-IsHeld k e (j, (g, (i, p))) = elim (old_or_new j g i) [
    | inl m ↦ inl (j, (g, (m, sym (old_held j g m k) ∙ p)))
    | inr (_, is_new) ↦ inr (sym (new_held k) ∙ subst (λ g. held new_files k g ≡ some e) is_new p)
  ]

  flushed-Across : Across (held new_files) new_levels
  flushed-Across i j g g' lt m n k a b p q = elim (old_or_new i g m) [
    | inl m ↦ elim (old_or_new j g' n) [
      | inl n ↦
          layered.across i j g g' lt m n k a b (sym (old_held i g m k) ∙ p)
            (sym (old_held j g' n k) ∙ q)
      | inr (top, _) ↦ absurd (omega arith)
    ]
    | inr (top, is_new) ↦ elim (old_or_new j g' n) [
      | inl n ↦ new-Newer j g' n k a b (subst (λ g. held new_files k g ≡ some a) is_new p) q
      | inr (also, _) ↦ absurd (omega arith)
    ]
  ]

  flushed_apart : (i : ℕ) → 0 < i → ApartAt (held new_files) (files_at i new_levels)
  flushed_apart i lt g g' k a b m n p q = elim (old_or_new i g m) [
    | inr (top, _) ↦ absurd (omega arith)
    | inl m ↦ elim (old_or_new i g' n) [
      | inr (top, _) ↦ absurd (omega arith)
      | inl n ↦
          layered.apart i lt g g' k a b m n (sym (old_held i g m k) ∙ p)
            (sym (old_held i g' n k) ∙ q)
    ]
  ]

  flushed_numbered : Numbered new_levels
  flushed_numbered i j g g' m n e = elim (old_or_new i g m) [
    | inl m ↦ elim (old_or_new j g' n) [
      | inl n ↦ layered.numbered i j g g' m n e
      | inr (_, is_new) ↦
          let lt = below i g m in let same = ap (λ x. x.file_number) is_new in absurd (omega arith)
    ]
    | inr (top, is_new) ↦ elim (old_or_new j g' n) [
      | inl n ↦
          let lt = below j g' n in let same = ap (λ x. x.file_number) is_new in absurd (omega arith)
      | inr (top', also) ↦ (top ∙ sym top', is_new ∙ sym also)
    ]
  ]

  pub flushed-Stored :
      Stored new_files f
      → (j : ℕ) (g : FileMetaData) → In g (files_at j new_levels)
      → Stored new_files g
  flushed-Stored new j g i = elim (old_or_new j g i) [
    | inr (_, is_new) ↦ subst (Stored new_files) (sym is_new) new
    | inl m ↦
        let (t', (there, sound)) = stored j g m in
        (t', (update_file-other files f.file_number t g.file_number (below j g m) ∙ there, sound))
  ]

flushed_last :
    (Table : Type 0) ⦃tables : Tables Table⦄ (files : ℕ → Option Table) (ls : Levels)
    (f : FileMetaData) (t : Table) (es : List Entry) (layered : IsLayered (held files) ls)
    (stored : (j : ℕ) (g : FileMetaData) → In g (files_at j ls) → Stored files g)
    (below : (j : ℕ) (g : FileMetaData) → In g (files_at j ls) → g.file_number < f.file_number)
    (read : tables.read_all t ≡ ok es)
    (newer : (k : Key) (a x : Entry)
      → find k es ≡ some a
      → IsHeld (held files) k ls x
      → x.seq_no < a.seq_no)
    → NewestLast
        (held (update_file files f.file_number t))
        (files_at 0 (at_level 0 (push_file 0 f) ls))
unfolding at_level push_file
flushed_last Table files [] f t es layered stored below read newer = tt
flushed_last Table files (l ∷ ls) f t es layered stored below read newer =
    let h' = held (update_file files f.file_number t) in
    NewestLast-snoc h' l f
      (NewestLast-same (held files) h' l
        (λ g i. old_held Table files (l ∷ ls) f t es layered stored below read newer 0 g i)
        layered.newest_last)
      (λ g i. new-Newer Table files (l ∷ ls) f t es layered stored below read newer 0 g i)

-- A flush keeps the layers in order.
pub flushed-IsLayered :
    (Table : Type 0) ⦃tables : Tables Table⦄ (files : ℕ → Option Table) (ls : Levels)
    (f : FileMetaData) (t : Table) (es : List Entry) (layered : IsLayered (held files) ls)
    (stored : (j : ℕ) (g : FileMetaData) → In g (files_at j ls) → Stored files g)
    (below : (j : ℕ) (g : FileMetaData) → In g (files_at j ls) → g.file_number < f.file_number)
    (read : tables.read_all t ≡ ok es)
    (newer : (k : Key) (a x : Entry)
      → find k es ≡ some a
      → IsHeld (held files) k ls x
      → x.seq_no < a.seq_no)
    → IsLayered (held (update_file files f.file_number t)) (at_level 0 (push_file 0 f) ls)
flushed-IsLayered Table files ls f t es layered stored below read newer = record {
  newest_last = flushed_last Table files ls f t es layered stored below read newer;
  across = flushed-Across Table files ls f t es layered stored below read newer;
  apart = flushed_apart Table files ls f t es layered stored below read newer;
  numbered = flushed_numbered Table files ls f t es layered stored below read newer;
}
