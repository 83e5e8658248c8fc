-- ===== src/Engine/Layers/Answers.antt =====
-- A pass of `compact` changes the answer of no key.
use flash_store.Prelude.{
  ℕ, suc, ◌≤◌, ◌≡◌, refl, ap, sym, ◌∙◌, subst, Option, none, some, In, inl, inr, true, arith, ◌⊎◌,
}
use mathlib.Core.Option.{some-injective}
use flash_store.Manifest.{FileMetaData, Levels}
use flash_store.Manifest.Levels.{files_at}
use flash_store.Tables.{answer_of}
use flash_store.Types.{Key, Entry, is_tombstone}
use flash_store.Engine.Search.{flat}
use flash_store.Engine.Layers.{Held, IsLayered}
use flash_store.Engine.Layers.Newest.{IsHeld, UpTo, Newest}
use flash_store.Engine.Layers.Pass.{Pass, Source, held_unique, over, beside}

tombstone_answer : (e : Entry) → is_tombstone e.value_type ≡ true → flat (answer_of (some e)) ≡ none
tombstone_answer e h = ground (arith, h)

low_or_last : (j level : ℕ) → j ≤ suc level → (j ≤ level) ⊎ (j ≡ suc level)
low_or_last j level h = ground arith

module _ (h h' : Held) (ls ls' : Levels) (level : ℕ) (Gone : ℕ → FileMetaData → Type 0)
    (out : FileMetaData) (p : Pass h h' ls ls' level Gone out) (v : IsLayered h ls) (k : Key) where
  Source-IsHeld : (x : Entry) → Source h Gone k x → IsHeld h k ls x
  Source-IsHeld x ((i, (q, (gone, hq))), most) = (i, (q, ((p.gone_at i q gone).0, hq)))

  -- A pass invents no entry.
  pub IsHeld-before : (e : Entry) → IsHeld h' k ls' e → IsHeld h k ls e
  IsHeld-before e (i, (f, (m, q))) = elim (p.before i f m) [
    | inl (m, s, same) ↦ (i, (f, (m, sym (same k) ∙ q)))
    | inr (at, is_out, source) ↦
        Source-IsHeld e (source k e (subst (λ g. h' k g ≡ some e) is_out q))
  ]

  -- If the newest entry is still there, it is the answer.
  still :
      (e : Entry) (o' : Option Entry)
      → UpTo h k ls (some e)
      → Newest h' k ls' o'
      → IsHeld h k ls e
      → IsHeld h' k ls' e
      → o' ≡ some e
  still e o' u (is_held, u') m (i, (f, (at, q))) =
      let (x, (r, le)) = u' i f e at q in
      let there = IsHeld-before x (is_held x r) in
      let (j, (g, (n, s))) = there in
      let (y, (t, le')) = u j g x n s in
      let same : e.seq_no ≡ x.seq_no = omega (arith, ap (λ e. e.seq_no) (some-injective e y t)) in
      r ∙ ap some (sym (held_unique h k ls e x v m there same))

  -- The newest source is the newest entry, if that is removed.
  newest-Source :
      (i : ℕ) (f : FileMetaData) (e x : Entry)
      → UpTo h k ls (some e)
      → Gone i f
      → h k f ≡ some e
      → Source h Gone k x
      → e ≡ x
  newest-Source i f e x u gone q s =
      let ((j, (g, (gone', r))), most) = s in
      let le = most i f e gone q in
      let (y, (t, le')) = u j g x (p.gone_at j g gone').0 r in
      let same : e.seq_no ≡ x.seq_no = omega (arith, ap (λ e. e.seq_no) (some-injective e y t)) in
      held_unique h k ls e x v (i, (f, ((p.gone_at i f gone).0, q))) (Source-IsHeld x s) same

  -- A newest entry that is a removed tombstone of the last level leaves nothing else behind.
  dropped :
      (i : ℕ) (f : FileMetaData) (e : Entry) (o' : Option Entry)
      → UpTo h k ls (some e)
      → Newest h' k ls' o'
      → Gone i f
      → h k f ≡ some e
      → ((j : ℕ) (g : FileMetaData) → In g (files_at j ls) → j ≤ suc level)
      → (o' ≡ none) ⊎ (o' ≡ some e)
  dropped i f e none u n gone q last = inl refl
  dropped i f e (some x) u (is_held, u') gone q last =
      let (j, (g, (m, r))) = is_held x refl in
      elim (p.before j g m) [
        | inr (at, is_out, source) ↦ inr (
            ap some (
              sym (
                newest-Source i f e x u gone q
                  (source k x (subst (λ g. h' k g ≡ some x) is_out r)))))
        | inl (m, stays, same) ↦
            let hx : h k g ≡ some x = sym (same k) ∙ r in
            let (y, (t, le)) = u j g x m hx in
            let e_y = ap (λ e. e.seq_no) (some-injective e y t) in
            let lt = last j g m in
            elim (low_or_last j level lt) [
              | inl low ↦
                  let newer =
                    over h h' ls ls' level Gone out p v j i g f k x e m stays gone low hx q in
                  absurd (omega arith)
              | inr here ↦ absurd (
                  beside h h' ls ls' level Gone out p v i g f k x e
                    (subst (λ j. In g (files_at j ls)) here m)
                    (subst (λ j. Gone j g → ⊥) here stays) gone hx q)
            ]
      ]

  Gone-answer :
      (i : ℕ) (f : FileMetaData) (e : Entry) (o' : Option Entry)
      → UpTo h k ls (some e)
      → Newest h' k ls' o'
      → Gone i f
      → h k f ≡ some e
      → flat (answer_of o') ≡ flat (answer_of (some e))
  Gone-answer i f e o' u n gone q =
      let m : IsHeld h k ls e = (i, (f, ((p.gone_at i f gone).0, q))) in
      elim (p.outcome k) [
        | inl (at, (x, (r, s))) ↦
            let one = newest-Source i f e x u gone q s in
            ap (λ o. flat (answer_of o))
              (still e o' u n m (suc level, (out, (at, r ∙ ap some (sym one)))))
        | inr (inl nothing) ↦ let unheld = nothing i f gone in absurd cc
        | inr (inr (x, (s, dead, last))) ↦
            let one = newest-Source i f e x u gone q s in
            elim (dropped i f e o' u n gone q last) [
              | inl absent ↦
                  ap (λ o. flat (answer_of o)) absent
                  ∙ sym (tombstone_answer e (ap (λ x. is_tombstone x.value_type) one ∙ dead))
              | inr same ↦ ap (λ o. flat (answer_of o)) same
            ]
      ]

  -- The newest entry after a pass answers as the newest entry before it.
  pub pass_answer :
      (o o' : Option Entry)
      → Newest h k ls o
      → Newest h' k ls' o'
      → flat (answer_of o') ≡ flat (answer_of o)
  pass_answer none none n n' = refl
  pass_answer none (some x) (_, u) (is_held, _) =
      let (i, (f, (m, q))) = IsHeld-before x (is_held x refl) in
      let (e, (r, le)) = u i f x m q in absurd cc
  pass_answer (some e) o' (is_held, u) n' =
      let (i, (f, (m, q))) = is_held e refl in
      elim (p.decide i f m) [
        | inl gone ↦ Gone-answer i f e o' u n' gone q
        | inr stays ↦
            let (m', same) = p.kept i f m stays in
            ap (λ o. flat (answer_of o))
              (still e o' u n' (i, (f, (m, q))) (i, (f, (m', same k ∙ q))))
      ]
