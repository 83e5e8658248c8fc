-- ===== src/Engine/Layers/Newest.antt =====
-- Where files hide each other in order, the first file with a key holds its newest entry.
use flash_store.Prelude.{
  ℕ, zero, suc, ◌≤◌, ◌≡◌, ap, sym, ◌∙◌, [], ◌∷◌, Option, some, In, inl, inr, arith, Option-cases,
}
use flash_store.Manifest.{FileMetaData, Levels}
use flash_store.Manifest.Levels.{files_at}
use flash_store.Types.{Key, Entry}
use flash_store.Engine.Layers.{Held, Across, ApartAt, IsLayered}
use flash_store.Engine.Layers.Reads.{
  or_held, first_held, last_held, first_below, first_of, first_held-In, first_held-finds,
  last_held-In, last_held-newest,
}

-- A file of the levels holds the entry.
abbrev pub IsHeld : Held → Key → Levels → Entry → Type 0
IsHeld h k ls e = (i : ℕ) × ((f : FileMetaData) × (In f (files_at i ls) × (h k f ≡ some e)))

-- No file of the levels holds a newer entry of the key than `o`, and none at all if that is `none`.
abbrev pub UpTo : Held → Key → Levels → Option Entry → Type 0
UpTo h k ls o =
    (i : ℕ) (f : FileMetaData) (a : Entry)
    → In f (files_at i ls)
    → h k f ≡ some a
    → (e : Entry) × ((o ≡ some e) × (a.seq_no ≤ e.seq_no))

-- `o` is the newest entry of the key in the levels.
abbrev pub Newest : Held → Key → Levels → Option Entry → Type 0
Newest h k ls o = ((e : Entry) → o ≡ some e → IsHeld h k ls e) × UpTo h k ls o

module _ (h : Held) (k : Key) where
  below_in : (ls : Levels) (e : Entry) → first_below h k ls ≡ some e → IsHeld h k ls e
  below_in [] e p = absurd cc
  below_in (l ∷ ls) e p = elim (Option-cases (first_held h k l)) [
    | inl q ↦
        let (i, (f, (m, r))) =
          below_in ls e (sym (ap (λ o. or_held o (first_below h k ls)) q) ∙ p) in
        (suc i, (f, (m, r)))
    | inr (x, q) ↦
        (0, first_held-In h k l e (q ∙ (sym (ap (λ o. or_held o (first_below h k ls)) q) ∙ p)))
  ]

  of_in : (ls : Levels) (e : Entry) → first_of h k ls ≡ some e → IsHeld h k ls e
  of_in [] e p = absurd cc
  of_in (l ∷ ls) e p = elim (Option-cases (last_held h k l)) [
    | inl q ↦
        let (i, (f, (m, r))) =
          below_in ls e (sym (ap (λ o. or_held o (first_below h k ls)) q) ∙ p) in
        (suc i, (f, (m, r)))
    | inr (x, q) ↦
        (0, last_held-In h k l e (q ∙ (sym (ap (λ o. or_held o (first_below h k ls)) q) ∙ p)))
  ]

  below-UpTo :
      (ls : Levels)
      → Across h ls
      → ((i : ℕ) → ApartAt h (files_at i ls))
      → UpTo h k ls (first_below h k ls)
  below-UpTo [] ac ap' i f a m p = absurd (elim m [ ])
  below-UpTo (l ∷ ls) ac apart zero f a m p =
      let (e, q) = first_held-finds h k l f a m p in
      let (g, (n, r)) = first_held-In h k l e q in
      let same : f ≡ g = apart 0 f g k a e m n p r in
      let eq : a ≡ e = cc in
      (e, (ap (λ o. or_held o (first_below h k ls)) q, omega (arith, ap (λ x. x.seq_no) eq)))
  below-UpTo (l ∷ ls) ac apart (suc i) f a m p = elim (Option-cases (first_held h k l)) [
    | inl q ↦
        let (e, (r, le)) =
          below-UpTo ls (λ i j f g lt. ac (suc i) (suc j) f g (omega arith)) (λ i. apart (suc i)) i
            f a m p in
        (e, (ap (λ o. or_held o (first_below h k ls)) q ∙ r, le))
    | inr (x, q) ↦
        let (g, (n, r)) = first_held-In h k l x q in
        let newer = ac 0 (suc i) g f (omega arith) n m k x a r p in
        (x, (ap (λ o. or_held o (first_below h k ls)) q, omega arith))
  ]

  of_UpTo : (ls : Levels) → IsLayered h ls → UpTo h k ls (first_of h k ls)
  of_UpTo [] v i f a m p = absurd (elim m [ ])
  of_UpTo (l ∷ ls) v zero f a m p =
      let (e, (q, le)) = last_held-newest h k l f a v.newest_last m p in
      (e, (ap (λ o. or_held o (first_below h k ls)) q, le))
  of_UpTo (l ∷ ls) v (suc i) f a m p = elim (Option-cases (last_held h k l)) [
    | inl q ↦
        let (e, (r, le)) =
          below-UpTo ls (λ i j f g lt. v.across (suc i) (suc j) f g (omega arith))
            (λ i. v.apart (suc i) (omega arith)) i f a m p in
        (e, (ap (λ o. or_held o (first_below h k ls)) q ∙ r, le))
    | inr (x, q) ↦
        let (g, (n, r)) = last_held-In h k l x q in
        let newer = v.across 0 (suc i) g f (omega arith) n m k x a r p in
        (x, (ap (λ o. or_held o (first_below h k ls)) q, omega arith))
  ]

  pub first_of-Newest : (ls : Levels) → IsLayered h ls → Newest h k ls (first_of h k ls)
  first_of-Newest ls v = (of_in ls, of_UpTo ls v)
