-- ===== src/Manifest/Log.antt =====
-- The manifest file: what `read_all_edits` reads of what `log_edit` wrote.
use flash_store.Prelude.{
  ℕ, zero, suc, ◌+◌, ◌-◌, ◌%◌, ◌^◌, ◌<◌, ◌≤◌, ◌≡◌, ◌⊎◌, refl, ap, sym, ◌∙◌, ◌++◌, List, [], ◌∷◌,
  none, some, length, take, drop, ltb, leb, if◌then◌else◌, arith, All, Bool-cases, inl, inr,
  append-nil, append_assoc, length-append, length-drop, length-take, drop-drop, ltb→lt, ltb→le,
  take_append, drop_append,
}
use native.Mathlib.Nat.{add_assoc}
use flash_store.Bytes.{Bytes}
use flash_store.Disk.{File, write_all, write_all_at_end}
use flash_store.External.{Bincode, to_le_bytes, from_le_bytes, from_le_bytes-to_le_bytes_u32}
use flash_store.Manifest.{VersionEdit, log_edit, read_edits_loop, read_all_edits}

abbrev pub frame : ℕ → Bytes → Bytes
frame n body = to_le_bytes 4 n ++ body

take-frame : (n m : ℕ) (body : Bytes) → take (4 + m) (frame n body) ≡ frame n (take m body)
take-frame n m body = let e : 4 + m ≡ suc (suc (suc (suc m))) = omega arith in rw e

announced : Bytes → ℕ
announced d = from_le_bytes (take 4 d)

announced-frame : (n : ℕ) (body : Bytes) → n < 2 ^ 32 → announced (frame n body) ≡ n
unfolding announced
announced-frame n body h = from_le_bytes-to_le_bytes_u32 n h

module _ ⦃codec : Bincode VersionEdit⦄ where
  abbrev pub Fits : VersionEdit → Type 0
  Fits e = length (codec.serialize e) < 2 ^ 32

  abbrev pub encode : VersionEdit → Bytes
  encode e = frame (length (codec.serialize e)) (codec.serialize e)

  abbrev pub encode_all : List VersionEdit → Bytes
  encode_all [] = []
  encode_all (e ∷ es) = encode e ++ encode_all es

  -- The loop as a recursion on the bytes that are left.
  read_tail : ℕ → Bytes → List VersionEdit
  read_tail zero d = []
  read_tail (suc fuel) d =
      let len = announced d in
      let rest = read_tail fuel (drop (4 + len) d) in
      if leb 4 (length d)
      then (if ltb (length d) (4 + len)
          then []
          else elim (codec.deserialize (take len (drop 4 d))) [
            | none ↦ []
            | some edit ↦ edit ∷ rest
          ])
      else []

  loop-eq-tail :
      (fuel : ℕ) (b : Bytes) (offset : ℕ)
      → offset ≤ length b
      → read_edits_loop fuel b offset ≡ read_tail fuel (drop offset b)
  unfolding read_edits_loop read_tail announced
  loop-eq-tail zero b offset h = refl
  loop-eq-tail (suc fuel) b offset h =
      let len = from_le_bytes (take 4 (drop offset b)) in
      ground (
        arith,
        drop-drop b offset 4,
        drop-drop b offset (4 + len),
        length-drop offset b,
        loop-eq-tail fuel b (offset + 4 + len),
        ap (λ n. drop n b) (add_assoc offset 4 len),
      )

  read_tail-step :
      (fuel : ℕ) (d : Bytes) (e : VersionEdit)
      → 4 + announced d ≤ length d
      → codec.deserialize (take (announced d) (drop 4 d)) ≡ some e
      → read_tail (suc fuel) d ≡ e ∷ read_tail fuel (drop (4 + announced d) d)
  unfolding read_tail
  read_tail-step fuel d e h p = ground arith

  read_tail_short :
      (fuel : ℕ) (d : Bytes) → (length d < 4) ⊎ (length d < 4 + announced d) → read_tail fuel d ≡ []
  unfolding read_tail
  read_tail_short zero d h = refl
  read_tail_short (suc fuel) d (inl h) = ground arith
  read_tail_short (suc fuel) d (inr h) = ground arith

  read_tail-encode :
      (fuel : ℕ) (e : VersionEdit) (d : Bytes)
      → Fits e
      → read_tail (suc fuel) (encode e ++ d) ≡ e ∷ read_tail fuel d
  read_tail-encode fuel e d h =
      let p = codec.serialize e in
      let n : announced (encode e ++ d) ≡ length p = announced-frame (length p) (p ++ d) h in
      let seam : 4 + length p ≡ length (encode e) = omega arith in
      read_tail-step fuel (encode e ++ d) e (rw n (omega (arith, length-append p d)))
        (rw n (rw (take_append p d (length p) refl) (codec.deserialize-serialize e)))
      ∙ ap (λ x. e ∷ read_tail fuel x)
          (ap (λ m. drop (4 + m) (encode e ++ d)) n ∙ drop_append (encode e) d _ seam)

  read_tail_torn :
      (e : VersionEdit) (n fuel : ℕ)
      → Fits e
      → n < length (encode e)
      → read_tail fuel (take n (encode e)) ≡ []
  read_tail_torn e n fuel h lt =
      let p = codec.serialize e in
      elim (Bool-cases (ltb n 4)) [
        | inl short ↦
            read_tail_short fuel (take n (encode e))
              (inl (omega (arith, ltb→lt n 4 short, length-take n (encode e))))
        | inr long ↦
            let m : n ≡ 4 + (n - 4) = omega (arith, ltb→le n 4 long) in
            ap (read_tail fuel) (ap (λ k. take k (encode e)) m ∙ take-frame (length p) (n - 4) p)
            ∙ read_tail_short fuel (frame (length p) (take (n - 4) p)) (
                inr (
                  omega
                    (arith, announced-frame (length p) (take (n - 4) p) h, length-take (n - 4) p)))
      ]

  read_tail-encode_all :
      (fuel : ℕ) (es : List VersionEdit) (d : Bytes)
      → All Fits es
      → read_tail (length es + fuel) (encode_all es ++ d) ≡ es ++ read_tail fuel d
  read_tail-encode_all fuel [] d h = ap (λ n. read_tail n d) (omega arith)
  read_tail-encode_all fuel (e ∷ es) d h =
      ap (λ n. read_tail n ((encode e ++ encode_all es) ++ d)) (omega arith)
      ∙ ap (read_tail (suc (length es + fuel))) (append_assoc (encode e) (encode_all es) d)
      ∙ read_tail-encode (length es + fuel) e (encode_all es ++ d) h.0
      ∙ ap (◌∷◌ e) (read_tail-encode_all fuel es d h.1)

  length-encode_all : (es : List VersionEdit) → length es ≤ length (encode_all es)
  length-encode_all [] = omega arith
  length-encode_all (e ∷ es) =
      omega (arith, length-append (encode e) (encode_all es), length-encode_all es)

  -- From complete edits, each below 4 GiB, and then a proper prefix of one more, exactly the
  -- complete edits are read.
  pub read_all_edits_torn :
      (es : List VersionEdit) (e : VersionEdit) (n : ℕ)
      → All Fits es
      → Fits e
      → n < length (encode e)
      → read_all_edits (some (encode_all es ++ take n (encode e))) ≡ es
  unfolding read_all_edits
  read_all_edits_torn es e n h he lt =
      let t = take n (encode e) in
      let b = encode_all es ++ t in
      let fuel = length b - length es in
      let enough : length b ≡ length es + fuel =
        omega (arith, length-append (encode_all es) t, length-encode_all es) in
      loop-eq-tail (length b) b 0 (omega arith)
      ∙ ap (λ k. read_tail k b) enough
      ∙ read_tail-encode_all fuel es t h
      ∙ ap (λ x. es ++ x) (read_tail_torn e n fuel he lt)
      ∙ append-nil es

  -- A manifest of whole edits reads back as those edits.
  pub read_all_edits_complete :
      (es : List VersionEdit) → All Fits es → read_all_edits (some (encode_all es)) ≡ es
  unfolding read_all_edits
  read_all_edits_complete es h =
      let b = encode_all es in
      let fuel = length b - length es in
      let enough : length b ≡ length es + fuel = omega (arith, length-encode_all es) in
      loop-eq-tail (length b) b 0 (omega arith)
      ∙ ap (λ k. read_tail k b) enough
      ∙ ap (read_tail (length es + fuel)) (sym (append-nil b))
      ∙ read_tail-encode_all fuel es [] h
      ∙ ap (λ x. es ++ x) (read_tail_short fuel [] (inl (omega arith)))
      ∙ append-nil es

  pub encode_all-snoc :
      (es : List VersionEdit) (e : VersionEdit)
      → encode_all (es ++ e ∷ []) ≡ encode_all es ++ encode e
  encode_all-snoc [] e = append-nil (encode e)
  encode_all-snoc (x ∷ es) e =
      ap (λ t. encode x ++ t) (encode_all-snoc es e)
      ∙ sym (append_assoc (encode x) (encode_all es) (encode e))

  -- With the cursor at the end of the manifest, `log_edit` of an edit below 4 GiB adds the frame
  -- of the edit, makes it durable, and leaves the cursor at the end.
  pub log_edit-frame :
      (f : File) (e : VersionEdit)
      → f.pos ≡ length f.content
      → Fits e
      → ((log_edit f e).content ≡ f.content ++ encode e)
        × ((log_edit f e).durable ≡ f.content ++ encode e)
        × ((log_edit f e).pos ≡ length (log_edit f e).content)
  unfolding log_edit
  log_edit-frame f e h fits =
      let p = codec.serialize e in
      let n : length p % 2 ^ 32 ≡ length p = omega arith in
      let head = to_le_bytes 4 (length p) in
      let first = write_all_at_end f head h in
      let second = write_all_at_end (write_all f head) p first.1 in
      let content = second.0 ∙ ap (λ t. t ++ p) first.0 ∙ append_assoc f.content head p in
      rw n (content, content, second.1)
