-- ===== src/Engine/Layers/Pass.antt =====
-- One pass of `compact` as a change of the layers.
use flash_store.Prelude.{
  ℕ, zero, suc, ◌<◌, ◌≤◌, ◌≡◌, refl, sym, ◌∙◌, subst, List, [], ◌∷◌, none, some, In, inl, inr,
  arith, true, ◌⊎◌,
}
use flash_store.Manifest.{FileMetaData, Levels}
use flash_store.Manifest.Levels.{files_at}
use flash_store.Types.{Key, Entry, is_tombstone}
use flash_store.Engine.Layers.{Held, Newer, NewestLast, IsLayered}
use flash_store.Engine.Layers.Reads.{All-In}
use flash_store.Engine.Layers.Newest.{IsHeld}

-- The entry is from one of the files that a pass removes, the newest of the key in these.
abbrev pub Source : Held → (ℕ → FileMetaData → Type 0) → Key → Entry → Type 0
Source h Gone k x =
    ((i : ℕ) × ((p : FileMetaData) × (Gone i p × (h k p ≡ some x))))
    × ((j : ℕ) (q : FileMetaData) (b : Entry) → Gone j q → h k q ≡ some b → b.seq_no ≤ x.seq_no)

-- A pass takes the files `Gone` from a level and the next one, and puts the file `out` there.
pub record Pass (h h' : Held) (ls ls' : Levels) (level : ℕ) (Gone : ℕ → FileMetaData → Type 0)
    (out : FileMetaData) : Type 0 where
  -- A file after the pass was there before, or is the new one.
  pub before :
      (j : ℕ) (g : FileMetaData)
      → In g (files_at j ls')
      → (In g (files_at j ls) × (Gone j g → ⊥) × ((k : Key) → h' k g ≡ h k g))
        ⊎ ((j ≡ suc level)
            × (g ≡ out)
            × ((k : Key) (x : Entry) → h' k out ≡ some x → Source h Gone k x))
  pub kept :
      (j : ℕ) (g : FileMetaData)
      → In g (files_at j ls)
      → (Gone j g → ⊥)
      → In g (files_at j ls') × ((k : Key) → h' k g ≡ h k g)
  pub gone_at :
      (j : ℕ) (g : FileMetaData) → Gone j g → In g (files_at j ls) × ((j ≡ level) ⊎ (j ≡ suc level))
  pub decide : (j : ℕ) (g : FileMetaData) → In g (files_at j ls) → Gone j g ⊎ (Gone j g → ⊥)
  -- A file of the next level with a key of a removed one is removed.
  pub complete :
      (f g : FileMetaData) (k : Key) (a b : Entry)
      → Gone level f
      → h k f ≡ some a
      → In g (files_at (suc level) ls)
      → h k g ≡ some b
      → Gone (suc level) g
  pub all_of_zero : level ≡ 0 → (g : FileMetaData) → In g (files_at 0 ls) → Gone 0 g
  pub top :
      (files_at 0 ls' ≡ [])
      ⊎ ((files_at 0 ls' ≡ files_at 0 ls)
          × ((g : FileMetaData) → In g (files_at 0 ls) → (k : Key) → h' k g ≡ h k g))
  pub fresh : (j : ℕ) (g : FileMetaData) → In g (files_at j ls) → g.file_number < out.file_number
  -- Under a key the new file holds the newest entry of the removed ones, or these hold none, or
  -- that is a tombstone, and the next level is the last one.
  pub outcome :
      (k : Key)
      → (In out (files_at (suc level) ls')
          × ((x : Entry) × ((h' k out ≡ some x) × Source h Gone k x)))
        ⊎ (((j : ℕ) (q : FileMetaData) → Gone j q → h k q ≡ none)
            ⊎ ((x : Entry) × (Source h Gone k x
                  × (is_tombstone x.value_type ≡ true)
                  × ((j : ℕ) (g : FileMetaData) → In g (files_at j ls) → j ≤ suc level))))

lt_cases : (a b : ℕ) → (a < b) ⊎ ((a ≡ b) ⊎ (b < a))
lt_cases a b = ground arith

pub zero_or_above : (n : ℕ) → (n ≡ 0) ⊎ (0 < n)
zero_or_above zero = inl refl
zero_or_above (suc n) = inr (omega arith)

-- Two files of level 0 are one, or one of them is newer.
level_zero :
    (h : Held) (l : List FileMetaData) (f g : FileMetaData)
    → NewestLast h l
    → In f l
    → In g l
    → (f ≡ g) ⊎ (Newer h f g ⊎ Newer h g f)
level_zero h [] f g n i j = absurd (elim i [ ])
level_zero h (x ∷ l) f g n (inl a) (inl b) = inl (a ∙ sym b)
level_zero h (x ∷ l) f g n (inl a) (inr j) =
    inr (inr (subst (Newer h g) (sym a) (All-In (λ y. Newer h y x) l g n.0 j)))
level_zero h (x ∷ l) f g n (inr i) (inl b) =
    inr (inl (subst (Newer h f) (sym b) (All-In (λ y. Newer h y x) l f n.0 i)))
level_zero h (x ∷ l) f g n (inr i) (inr j) = level_zero h l f g n.1 i j

-- The sequence number tells the entries of a key apart.
pub held_unique :
    (h : Held) (k : Key) (ls : Levels) (a b : Entry)
    → IsLayered h ls
    → IsHeld h k ls a
    → IsHeld h k ls b
    → a.seq_no ≡ b.seq_no
    → a ≡ b
held_unique h k ls a b v (i, (f, (m, p))) (j, (g, (n, q))) e = elim (lt_cases i j) [
  | inl lt ↦ let newer = v.across i j f g lt m n k a b p q in absurd (omega arith)
  | inr (inr gt) ↦ let newer = v.across j i g f gt n m k b a q p in absurd (omega arith)
  | inr (inl same) ↦
      let n' : In g (files_at i ls) = subst (λ j. In g (files_at j ls)) (sym same) n in
      elim (zero_or_above i) [
        | inr above ↦ let one = v.apart i above f g k a b m n' p q in cc
        | inl base ↦
            elim (level_zero h (files_at 0 ls) f g v.newest_last
              (subst (λ j. In f (files_at j ls)) base m)
              (subst (λ j. In g (files_at j ls)) base n')) [
                | inl one ↦ cc
                | inr (inl newer) ↦ let lt = newer k a b p q in absurd (omega arith)
                | inr (inr newer) ↦ let lt = newer k b a q p in absurd (omega arith)
              ]
      ]
]

module _ (h h' : Held) (ls ls' : Levels) (level : ℕ) (Gone : ℕ → FileMetaData → Type 0)
    (out : FileMetaData) (p : Pass h h' ls ls' level Gone out) (v : IsLayered h ls) where
  -- Where a removed file and one that stays hold a key, the one that stays is in an upper level
  -- and newer, or in a lower one and older.
  pub over :
      (i j : ℕ) (f q : FileMetaData) (k : Key) (a b : Entry)
      → In f (files_at i ls)
      → (Gone i f → ⊥)
      → Gone j q
      → i ≤ level
      → h k f ≡ some a
      → h k q ≡ some b
      → b.seq_no < a.seq_no
  over i j f q k a b m stays g le ha hb =
      let (n, at) = p.gone_at j q g in
      elim (lt_cases i j) [
        | inl lt ↦ v.across i j f q lt m n k a b ha hb
        | inr (inr gt) ↦ elim at [ inl e ↦ absurd (omega arith) | inr e ↦ absurd (omega arith) ]
        | inr (inl same) ↦
            let gi : Gone i q = subst (λ j. Gone j q) (sym same) g in
            elim (zero_or_above i) [
              | inl base ↦
                  let low : level ≡ 0 = elim at [
                    | inl e ↦ omega arith
                    | inr e ↦ absurd (omega arith)
                  ] in
                  absurd (
                    stays (
                      subst (λ i. Gone i f) (sym base)
                        (p.all_of_zero low f (subst (λ i. In f (files_at i ls)) base m))))
              | inr above ↦
                  let one = v.apart i above f q k a b m (p.gone_at i q gi).0 ha hb in
                  absurd (stays (subst (Gone i) (sym one) gi))
            ]
      ]

  pub beside :
      (j : ℕ) (f q : FileMetaData) (k : Key) (a b : Entry)
      → In f (files_at (suc level) ls)
      → (Gone (suc level) f → ⊥)
      → Gone j q
      → h k f ≡ some a
      → h k q ≡ some b
      → ⊥
  beside j f q k a b m stays g ha hb =
      let (n, at) = p.gone_at j q g in
      elim at [
        | inl e ↦ stays (p.complete q f k b a (subst (λ j. Gone j q) e g) hb m ha)
        | inr e ↦
            let gi : Gone (suc level) q = subst (λ j. Gone j q) e g in
            let one =
              v.apart (suc level) (omega arith) f q k a b m (p.gone_at (suc level) q gi).0 ha hb in
            stays (subst (Gone (suc level)) (sym one) gi)
      ]

  pub under :
      (i j : ℕ) (f q : FileMetaData) (k : Key) (a b : Entry)
      → In f (files_at i ls)
      → Gone j q
      → suc level < i
      → h k f ≡ some a
      → h k q ≡ some b
      → a.seq_no < b.seq_no
  under i j f q k a b m g lt ha hb =
      let (n, at) = p.gone_at j q g in
      let less : j < i = elim at [ inl e ↦ omega arith | inr e ↦ omega arith ] in
      v.across j i q f less n m k b a hb ha
