-- ===== src/Wal/Tail.antt =====
-- The loop of `WalReader::read_all`, read as a recursion on the bytes that are left.
use flash_store.Prelude.{
  ℕ, zero, suc, ◌+◌, ◌^◌, ◌<◌, ◌≤◌, ◌≡◌, ◌≢◌, ◌⊎◌, inl, inr, refl, ap, sym, ◌∙◌, List, [], ◌∷◌,
  ◌++◌, length, take, drop, arith, ltb, leb, if◌then◌else◌, Bool-cases, length-append, length-drop,
  take_append, drop_append, drop-drop, ==-false, take-take,
}
use flash_store.Bytes.{Bytes}
use flash_store.Error.{Error, ok, err, wal_error, corruption}
use flash_store.External.{Buf, Crc32, Bincode, from_le_bytes}
use flash_store.Wal.{read_loop}
use flash_store.Wal.Record.{WalRecord, encode, decode, decode_payload}
use flash_store.Wal.Frames.{
  Fits, frame, frame_len, length-frame, encode_layout, decode-frame, decode-encode,
}

-- The length that a header announces, header included.
unfoldable pub announced : Bytes → ℕ
announced d = 8 + from_le_bytes (take 4 (drop 4 d))

announced-ge : (d : Bytes) → 8 ≤ announced d
unfolding announced
announced-ge d = omega arith

announced-frame : (c n : ℕ) (body : Bytes) → n < 2 ^ 32 → announced (frame c n body) ≡ 8 + n
unfolding announced
announced-frame c n body h = ap (λ m. 8 + m) (frame_len c n body h)

pub take-frame :
    (c n m : ℕ) (body : Bytes) → take (8 + m) (frame c n body) ≡ frame c n (take m body)
take-frame c n m body =
    let e : 8 + m ≡ suc (suc (suc (suc (suc (suc (suc (suc m))))))) = omega arith in rw e

module _ ⦃buf : Buf⦄ ⦃crc : Crc32⦄ ⦃codec : Bincode WalRecord⦄ where
  pub read_tail : ℕ → Bytes → List WalRecord
  read_tail zero d = []
  read_tail (suc fuel) d =
      let rest = read_tail fuel (drop (announced d) d) in
      if leb 8 (length d)
      then (if ltb (length d) (announced d)
          then []
          else elim (decode (take (announced d) d)) [ ok r ↦ r ∷ rest | err e ↦ [] ])
      else []

  pub read_loop-eq-tail :
      (fuel : ℕ) (b : Bytes) (offset : ℕ)
      → offset ≤ length b
      → read_loop fuel b offset ≡ read_tail fuel (drop offset b)
  unfolding read_loop read_tail announced
  read_loop-eq-tail zero b offset h = refl
  read_loop-eq-tail (suc fuel) b offset h =
      let d = drop offset b in
      ground (
        arith,
        drop-drop b offset 4,
        drop-drop b offset (announced d),
        length-drop offset b,
        read_loop-eq-tail fuel b (offset + announced d),
      )

  pub read_tail_fuel :
      (f g : ℕ) (d : Bytes) → length d ≤ f → length d ≤ g → read_tail f d ≡ read_tail g d
  unfolding read_tail
  read_tail_fuel zero zero d p q = refl
  read_tail_fuel zero (suc g) d p q = ground arith
  read_tail_fuel (suc f) zero d p q = ground arith
  read_tail_fuel (suc f) (suc g) d p q = ground (
    arith,
    announced-ge d,
    length-drop (announced d) d,
    read_tail_fuel f g (drop (announced d) d),
  )

  read_tail-step :
      (fuel : ℕ) (d : Bytes) (r : WalRecord)
      → announced d ≤ length d
      → decode (take (announced d) d) ≡ ok r
      → read_tail (suc fuel) d ≡ r ∷ read_tail fuel (drop (announced d) d)
  unfolding read_tail
  read_tail-step fuel d r h p = ground (arith, announced-ge d)

  read_tail_stop :
      (fuel : ℕ) (d : Bytes) {e : Error}
      → (length d < announced d) ⊎ (decode (take (announced d) d) ≡ err e)
      → read_tail (suc fuel) d ≡ []
  unfolding read_tail
  read_tail_stop fuel d (inl h) = ground arith
  read_tail_stop fuel d (inr h) = ground arith

  announced-encode :
      (r : WalRecord) (d : Bytes) → Fits r → announced (encode r ++ d) ≡ length (encode r)
  announced-encode r d h =
      let p = codec.serialize r in
      rw (encode_layout r h) (
        announced-frame (crc.hash p) (length p) (p ++ d) h
        ∙ sym (length-frame (crc.hash p) (length p) p))

  pub read_tail-encode :
      (fuel : ℕ) (r : WalRecord) (d : Bytes)
      → Fits r
      → read_tail (suc fuel) (encode r ++ d) ≡ r ∷ read_tail fuel d
  read_tail-encode fuel r d h =
      let e : announced (encode r ++ d) ≡ length (encode r) = announced-encode r d h in
      read_tail-step fuel (encode r ++ d) r (rw e (omega (arith, length-append (encode r) d)))
        (rw e (rw (take_append (encode r) d _ refl) (decode-encode r h)))
      ∙ ap (λ x. r ∷ read_tail fuel x) (rw e (drop_append (encode r) d _ refl))

  -- A frame at which the loop stops: too few bytes behind its header, or another checksum.
  abbrev pub IsBad : ℕ → ℕ → Bytes → Type 0
  IsBad c n body = (length body < n) ⊎ (crc.hash (take n body) ≢ c)

  decode_payload_mismatch :
      (c n : ℕ) (body : Bytes)
      → crc.hash (take n body) ≢ c
      → (e : Error) × (decode_payload c n (take n body) ≡ err e)
  unfolding decode_payload
  decode_payload_mismatch c n body other = elim (Bool-cases (ltb (length (take n body)) n)) [
    | inl short ↦ (wal_error, rw short)
    | inr long ↦
        (corruption, rw (long, take-take n body) (rw (==-false (crc.hash (take n body)) c other)))
  ]

  pub read_tail_bad :
      (fuel c n : ℕ) (body : Bytes)
      → c < 2 ^ 32
      → n < 2 ^ 32
      → IsBad c n body
      → read_tail fuel (frame c n body) ≡ []
  read_tail_bad zero c n body hc hn bad = unfold read_tail in refl
  read_tail_bad (suc fuel) c n body hc hn (inl short) =
      read_tail_stop fuel (frame c n body) {e = wal_error}
        (inl (omega (arith, announced-frame c n body hn, length-frame c n body)))
  read_tail_bad (suc fuel) c n body hc hn (inr other) =
      let (e, p) = decode_payload_mismatch c n body other in
      read_tail_stop fuel (frame c n body) (
        inr (
          ap (λ m. decode (take m (frame c n body))) (announced-frame c n body hn)
          ∙ ap decode (take-frame c n n body)
          ∙ decode-frame c n (take n body) hc hn
          ∙ p))

  pub read_tail_short : (fuel : ℕ) (d : Bytes) → length d < 8 → read_tail fuel d ≡ []
  unfolding read_tail
  read_tail_short zero d h = refl
  read_tail_short (suc fuel) d h = ground arith
