-- ===== src/Engine/Layers/Kept.antt =====
-- A pass of `compact` keeps the layers in order.
use flash_store.Prelude.{
  ℕ, ◌<◌, ◌≡◌, refl, ap, sym, ◌∙◌, subst, List, [], ◌∷◌, some, In, inl, inr, All, arith,
}
use flash_store.Manifest.{FileMetaData, Levels}
use flash_store.Manifest.Levels.{files_at}
use flash_store.Types.{Key}
use flash_store.Engine.Layers.{Held, Newer, NewestLast, Across, ApartAt, Numbered, IsLayered}
use flash_store.Engine.Layers.Reads.{All-In}
use flash_store.Engine.Layers.Pass.{Pass, over, beside, under}

All-of_each :
    (P : FileMetaData → Type 0) (l : List FileMetaData)
    → ((f : FileMetaData) → In f l → P f)
    → All P l
All-of_each P [] k = tt
All-of_each P (f ∷ l) k = (k f (inl refl), All-of_each P l (λ g i. k g (inr i)))

pub NewestLast-same :
    (h h' : Held) (l : List FileMetaData)
    → ((g : FileMetaData) → In g l → (k : Key) → h' k g ≡ h k g)
    → NewestLast h l
    → NewestLast h' l
NewestLast-same h h' [] e n = tt
NewestLast-same h h' (f ∷ l) e n = (
  All-of_each (λ g. Newer h' g f) l
      (λ g i k a b p q.
        All-In (λ g. Newer h g f) l g n.0 i k a b (sym (e g (inr i) k) ∙ p)
          (sym (e f (inl refl) k) ∙ q)),
  NewestLast-same h h' l (λ g i. e g (inr i)) n.1,
)

module _ (h h' : Held) (ls ls' : Levels) (level : ℕ) (Gone : ℕ → FileMetaData → Type 0)
    (out : FileMetaData) (p : Pass h h' ls ls' level Gone out) (v : IsLayered h ls) where
  new-Across : Across h' ls'
  new-Across i j f g lt m n k a b pa pb = elim (p.before i f m) [
    | inl (m, sf, ef) ↦
        let ha : h k f ≡ some a = sym (ef k) ∙ pa in
        elim (p.before j g n) [
          | inl (n, sg, eg) ↦ v.across i j f g lt m n k a b ha (sym (eg k) ∙ pb)
          | inr (at, is_out, source) ↦
              let ((x, (q, (gone, hq))), most) =
                source k b (subst (λ g. h' k g ≡ some b) is_out pb) in
              over h h' ls ls' level Gone out p v i x f q k a b m sf gone (omega arith) ha hq
        ]
    | inr (at, is_out, source) ↦
        let ((x, (q, (gone, hq))), most) = source k a (subst (λ g. h' k g ≡ some a) is_out pa) in
        elim (p.before j g n) [
          | inl (n, sg, eg) ↦
              under h h' ls ls' level Gone out p v j x g q k b a n gone (omega arith)
                (sym (eg k) ∙ pb) hq
          | inr (at', _, _) ↦ absurd (omega arith)
        ]
  ]

  new_apart : (i : ℕ) → 0 < i → ApartAt h' (files_at i ls')
  new_apart i lt f g k a b m n pa pb = elim (p.before i f m) [
    | inl (m, sf, ef) ↦
        let ha : h k f ≡ some a = sym (ef k) ∙ pa in
        elim (p.before i g n) [
          | inl (n, sg, eg) ↦ v.apart i lt f g k a b m n ha (sym (eg k) ∙ pb)
          | inr (at, is_out, source) ↦
              let ((x, (q, (gone, hq))), most) =
                source k b (subst (λ g. h' k g ≡ some b) is_out pb) in
              absurd (
                beside h h' ls ls' level Gone out p v x f q k a b
                  (subst (λ i. In f (files_at i ls)) at m) (subst (λ i. Gone i f → ⊥) at sf) gone ha
                  hq)
        ]
    | inr (at, is_out, source) ↦
        let ((x, (q, (gone, hq))), most) = source k a (subst (λ g. h' k g ≡ some a) is_out pa) in
        elim (p.before i g n) [
          | inl (n, sg, eg) ↦ absurd (
              beside h h' ls ls' level Gone out p v x g q k b a
                (subst (λ i. In g (files_at i ls)) at n) (subst (λ i. Gone i g → ⊥) at sg) gone
                (sym (eg k) ∙ pb) hq)
          | inr (at', other, _) ↦ is_out ∙ sym other
        ]
  ]

  new_numbered : Numbered ls'
  new_numbered i j f g m n e = elim (p.before i f m) [
    | inl (m, sf, ef) ↦ elim (p.before j g n) [
      | inl (n, sg, eg) ↦ v.numbered i j f g m n e
      | inr (at, is_out, _) ↦
          let lt = p.fresh i f m in
          let same = ap (λ x. x.file_number) is_out in absurd (omega arith)
    ]
    | inr (at, is_out, _) ↦ elim (p.before j g n) [
      | inl (n, sg, eg) ↦
          let lt = p.fresh j g n in
          let same = ap (λ x. x.file_number) is_out in absurd (omega arith)
      | inr (at', other, _) ↦ (at ∙ sym at', is_out ∙ sym other)
    ]
  ]

  new_top : NewestLast h' (files_at 0 ls')
  new_top = elim p.top [
    | inl e ↦ subst (NewestLast h') (sym e) tt
    | inr (e, same) ↦
        subst (NewestLast h') (sym e) (NewestLast-same h h' (files_at 0 ls) same v.newest_last)
  ]

  -- A pass keeps the layers in order.
  pub pass-IsLayered : IsLayered h' ls'
  pass-IsLayered = record {
    newest_last = new_top;
    across = new-Across;
    apart = new_apart;
    numbered = new_numbered;
  }
