-- ===== src/Rag/Chunker/Windows.antt =====
-- The windows of characters of src/rag/chunker.rs against the text.
use flash_store.Prelude.{
  ℕ, zero, suc, ◌+◌, ◌-◌, ◌<◌, ◌≤◌, ◌≡◌, refl, ap, sym, ◌∙◌, min, Bool, List, [], ◌∷◌, ◌++◌, length,
  take, drop, ltb, leb, ◌==◌, append-nil, append_assoc, take_all, Bool-cases, inl, inr, arith,
  ltb→lt,
}
use native.Mathlib.Numerals.{unary_clauses}
use flash_store.Rag.Text.{Text, byte_index, slice}
use flash_store.Rag.Chunker.{
  Chunk, push_window, fixed_chars_loop, chunk_fixed_chars, effective_overlap, window_step,
}

-- The texts of later chunks, each without the overlap with the one before.
abbrev pub rejoin_rest : ℕ → List Chunk → Text
rejoin_rest overlap [] = []
rejoin_rest overlap ((s, e, t) ∷ chunks) = drop overlap t ++ rejoin_rest overlap chunks

abbrev pub rejoin : ℕ → List Chunk → Text
rejoin overlap [] = []
rejoin overlap ((s, e, t) ∷ chunks) = t ++ rejoin_rest overlap chunks

-- Without a least length each window joins.
push_window-all :
    (text : Text) (at_end : Bool) (i j : ℕ) (chunks : List Chunk)
    → push_window text 0 at_end i j chunks
      ≡ chunks ++ (byte_index text i, byte_index text j, slice text i j) ∷ []
unfolding push_window
push_window-all text at_end i j chunks = ground arith

rejoin_rest-snoc :
    (overlap i j : ℕ) (chunks : List Chunk) (t : Text)
    → rejoin_rest overlap (chunks ++ (i, j, t) ∷ []) ≡ rejoin_rest overlap chunks ++ drop overlap t
rejoin_rest-snoc overlap i j [] t = append-nil (drop overlap t)
rejoin_rest-snoc overlap i j ((s, e, u) ∷ chunks) t =
    ap (◌++◌ (drop overlap u)) (rejoin_rest-snoc overlap i j chunks t)
    ∙ sym (append_assoc (drop overlap u) (rejoin_rest overlap chunks) (drop overlap t))

rejoin-snoc :
    (overlap i j : ℕ) (chunk : Chunk) (chunks : List Chunk) (t : Text)
    → rejoin overlap (chunk ∷ chunks ++ (i, j, t) ∷ [])
      ≡ rejoin overlap (chunk ∷ chunks) ++ drop overlap t
rejoin-snoc overlap i j (s, e, u) chunks t =
    ap (◌++◌ u) (rejoin_rest-snoc overlap i j chunks t)
    ∙ sym (append_assoc u (rejoin_rest overlap chunks) (drop overlap t))

take-nil : (n : ℕ) → take {A = ℕ} n [] ≡ []
take-nil zero = refl
take-nil (suc n) = refl

drop-nil : (n : ℕ) → drop {A = ℕ} n [] ≡ []
drop-nil zero = refl
drop-nil (suc n) = refl

-- A part from the start, and the rest of a longer part.
take_join : (a b : ℕ) (xs : Text) → a ≤ b → take a xs ++ drop a (take b xs) ≡ take b xs
take_join zero b xs h = refl
take_join (suc a) zero xs h = absurd (omega arith)
take_join (suc a) (suc b) [] h = refl
take_join (suc a) (suc b) (x ∷ xs) h = ap (◌∷◌ x) (take_join a b xs (omega arith))

-- The same, where the longer part begins at `c` and the parts overlap by `a`.
window_join :
    (c a b : ℕ) (xs : Text)
    → a ≤ b
    → take (a + c) xs ++ drop a (take b (drop c xs)) ≡ take (b + c) xs
window_join zero a b xs h = simp unary_clauses (take_join a b xs h)
window_join (suc c) a b [] h = simp unary_clauses (rw take-nil (drop-nil a))
window_join (suc c) a b (x ∷ xs) h = simp unary_clauses (ap (◌∷◌ x) (window_join c a b xs h))

loop-end :
    (fuel size step c : ℕ) (text : Text) (chunks : List Chunk)
    → c < length text
    → length text ≤ c + size
    → fixed_chars_loop (suc fuel) text size step 0 c chunks
      ≡ chunks
        ++ (byte_index text c, byte_index text (length text), slice text c (length text)) ∷ []
unfolding fixed_chars_loop
loop-end fuel size step c text chunks lt le =
    let n = length text in
    let all : min (c + size) n ≡ n = omega arith in
    let pushed = push_window-all text (leb n n) c n chunks in rw all (ground (arith, pushed))

loop-step :
    (fuel size step c : ℕ) (text : Text) (chunks : List Chunk)
    → c + size < length text
    → fixed_chars_loop (suc fuel) text size step 0 c chunks
      ≡ fixed_chars_loop fuel text size step 0
          (c + step)
          (chunks ++ (byte_index text c, byte_index text (c + size), slice text c (c + size)) ∷ [])
unfolding fixed_chars_loop
loop-step fuel size step c text chunks lt =
    let part : min (c + size) (length text) ≡ c + size = omega arith in
    let pushed = push_window-all text (leb (length text) (c + size)) c (c + size) chunks in
    rw part (ground (arith, ap (fixed_chars_loop fuel text size step 0 (c + step)) pushed))

-- The loop from a later window on gives the rest of the text.
later_windows :
    (fuel size overlap c : ℕ) (text : Text) (chunk : Chunk) (chunks : List Chunk)
    → overlap < size
    → c + overlap < length text
    → length text ≤ c + fuel
    → rejoin overlap (chunk ∷ chunks) ≡ take (overlap + c) text
    → rejoin overlap (fixed_chars_loop fuel text size (size - overlap) 0 c (chunk ∷ chunks)) ≡ text
later_windows zero size overlap c text chunk chunks less lt enough h = absurd (omega arith)
later_windows (suc fuel) size overlap c text chunk chunks less lt enough h =
    let n = length text in
    let joined = λ (j : ℕ) (le : c + overlap ≤ j).
      rejoin-snoc overlap (byte_index text c) (byte_index text j) chunk chunks (slice text c j)
      ∙ ap (λ t. t ++ drop overlap (slice text c j)) h
      ∙ window_join c overlap (j - c) text (omega arith) in
    elim (Bool-cases (ltb (c + size) n)) [
      | inr last ↦
          let all : n - c + c ≡ n = omega arith in
          ap (rejoin overlap) (
            loop-end fuel size (size - overlap) c text (chunk ∷ chunks) (omega arith)
              (ground arith))
          ∙ joined n (omega arith)
          ∙ ap (λ m. take m text) all
          ∙ take_all n text (omega arith)
      | inl more ↦
          let next : c + size - c + c ≡ overlap + (c + (size - overlap)) = omega arith in
          ap (rejoin overlap)
            (loop-step fuel size (size - overlap) c text (chunk ∷ chunks) (ground arith))
          ∙ later_windows fuel size overlap (c + (size - overlap)) text chunk
              (chunks
                ++ (byte_index text c, byte_index text (c + size), slice text c (c + size)) ∷ [])
              less (omega (arith, ltb→lt (c + size) n more)) (omega arith)
              (joined (c + size) (omega arith) ∙ ap (λ m. take m text) next)
    ]

first_window :
    (fuel size overlap x : ℕ) (xs : Text)
    → overlap < size
    → length (x ∷ xs) ≤ suc fuel
    → rejoin overlap (fixed_chars_loop (suc fuel) (x ∷ xs) size (size - overlap) 0 0 []) ≡ x ∷ xs
first_window fuel size overlap x xs less enough =
    let text = x ∷ xs in
    let n = length text in
    elim (Bool-cases (ltb (0 + size) n)) [
      | inr last ↦
          let all : n - 0 ≡ n = omega arith in
          ap (rejoin overlap)
            (loop-end fuel size (size - overlap) 0 text [] (omega arith) (ground arith))
          ∙ append-nil (slice text 0 n)
          ∙ ap (λ m. take m text) all
          ∙ take_all n text (omega arith)
      | inl more ↦
          let first : 0 + size - 0 ≡ overlap + (0 + (size - overlap)) = omega arith in
          ap (rejoin overlap)
            (loop-step fuel size (size - overlap) 0 text [] (ltb→lt (0 + size) n more))
          ∙ later_windows fuel size overlap (0 + (size - overlap)) text
              (byte_index text 0, byte_index text (0 + size), slice text 0 (0 + size)) [] less
              (omega (arith, ltb→lt (0 + size) n more)) (omega arith)
              (append-nil (slice text 0 (0 + size)) ∙ ap (λ m. take m text) first)
    ]

-- With a size above 0, and no least length, the windows of characters give the text back: the
-- chunks, each after the first without the overlap with the one before, are the text.
pub rejoin-chunk_fixed_chars :
    (text : Text) (size overlap : ℕ)
    → 0 < size
    → rejoin (effective_overlap size overlap) (chunk_fixed_chars text size overlap 0) ≡ text
unfolding chunk_fixed_chars fixed_chars_loop
rejoin-chunk_fixed_chars [] size overlap h = elim (Bool-cases (size == 0)) [
  | inl none_left ↦ rw none_left refl
  | inr some_left ↦ rw some_left refl
]
rejoin-chunk_fixed_chars (x ∷ xs) size overlap h =
    let kept = effective_overlap size overlap in
    let step : window_step size overlap ≡ size - kept = omega arith in
    elim (Bool-cases (size == 0)) [
      | inl none_left ↦ absurd (ground arith)
      | inr some_left ↦ rw some_left (
          ap (λ w. rejoin kept (fixed_chars_loop (length (x ∷ xs)) (x ∷ xs) size w 0 0 [])) step
          ∙ first_window (length xs) size kept x xs (omega arith) (omega arith))
    ]
