-- ===== src/Wal/Recovery.antt =====
-- What `WalReader::read_all` recovers from a log that was written by `WalRecord::encode`.
use flash_store.Prelude.{
  ℕ, suc, ◌+◌, ◌-◌, ◌^◌, ◌<◌, ◌≤◌, ◌≡◌, ◌≢◌, ◌⊎◌, inl, inr, ap, sym, ◌∙◌, List, [], ◌∷◌, ◌++◌,
  length, take, arith, ltb, Bool-cases, length-append, append_assoc, append-nil, All, ltb→lt,
  ltb→le, length-take,
}
use flash_store.Bytes.{Bytes}
use flash_store.External.{Buf, Crc32, Bincode}
use flash_store.Wal.{read_loop, read_all, encode_all}
use flash_store.Wal.Record.{WalRecord, encode}
use flash_store.Wal.Frames.{Fits, frame, length-frame, encode_layout}
use flash_store.Wal.Tail.{
  read_tail, read_loop-eq-tail, read_tail_fuel, read_tail-encode, read_tail_bad, read_tail_short,
  take-frame,
}

module _ ⦃buf : Buf⦄ ⦃crc : Crc32⦄ ⦃codec : Bincode WalRecord⦄ where
  read_all-eq-tail : (b : Bytes) → read_all b ≡ read_tail (length b) b
  unfolding read_all
  read_all-eq-tail b = read_loop-eq-tail (length b) b 0 (omega arith)

  length-encode : (r : WalRecord) → Fits r → 8 ≤ length (encode r)
  length-encode r h = rw (encode_layout r h) (omega (arith, length-frame 0 0 (codec.serialize r)))

  length-encode_all : (rs : List WalRecord) → All Fits rs → length rs ≤ length (encode_all rs)
  length-encode_all [] h = omega arith
  length-encode_all (r ∷ rs) h = omega (
    arith,
    length-append (encode r) (encode_all rs),
    length-encode r h.0,
    length-encode_all rs h.1,
  )

  read_tail-encode_all :
      (fuel : ℕ) (rs : List WalRecord) (d : Bytes)
      → All Fits rs
      → read_tail (length rs + fuel) (encode_all rs ++ d) ≡ rs ++ read_tail fuel d
  read_tail-encode_all fuel [] d h = ap (λ n. read_tail n d) (omega arith)
  read_tail-encode_all fuel (r ∷ rs) d h =
      ap (λ n. read_tail n ((encode r ++ encode_all rs) ++ d)) (omega arith)
      ∙ ap (read_tail (suc (length rs + fuel))) (append_assoc (encode r) (encode_all rs) d)
      ∙ read_tail-encode (length rs + fuel) r (encode_all rs ++ d) h.0
      ∙ ap (◌∷◌ r) (read_tail-encode_all fuel rs d h.1)

  -- If the loop recovers nothing from `d`, it recovers just the records in front of `d`.
  read_all_stop :
      (rs : List WalRecord) (d : Bytes)
      → All Fits rs
      → ((fuel : ℕ) → read_tail fuel d ≡ [])
      → read_all (encode_all rs ++ d) ≡ rs
  read_all_stop rs d h stop =
      let b = encode_all rs ++ d in
      let fuel = length b - length rs in
      let e : length b ≡ length rs + fuel =
        omega (arith, length-append (encode_all rs) d, length-encode_all rs h) in
      read_all-eq-tail b
      ∙ ap (λ n. read_tail n b) e
      ∙ read_tail-encode_all fuel rs d h
      ∙ ap (λ t. rs ++ t) (stop fuel)
      ∙ append-nil rs

  -- The loop of `read_all` never runs out of rounds: with any larger number of rounds it reads
  -- the same records.
  pub read_loop_fuel : (b : Bytes) (more : ℕ) → read_loop (length b + more) b 0 ≡ read_all b
  read_loop_fuel b more =
      read_loop-eq-tail (length b + more) b 0 (omega arith)
      ∙ read_tail_fuel (length b + more) (length b) b (omega arith) (omega arith)
      ∙ sym (read_all-eq-tail b)

  read_tail_torn :
      (r : WalRecord) (n fuel : ℕ)
      → Fits r
      → n < length (encode r)
      → read_tail fuel (take n (encode r)) ≡ []
  read_tail_torn r n fuel h lt = elim (Bool-cases (ltb n 8)) [
    | inl short ↦
        read_tail_short fuel (take n (encode r))
          (omega (arith, ltb→lt n 8 short, length-take n (encode r)))
    | inr long ↦
        let p = codec.serialize r in
        let c = crc.hash p in
        let e : n ≡ 8 + (n - 8) = omega (arith, ltb→le n 8 long) in
        ap (read_tail fuel) (
          ap (take n) (encode_layout r h)
          ∙ ap (λ m. take m (frame c (length p) p)) e
          ∙ take-frame c (length p) (n - 8) p)
        ∙ read_tail_bad fuel c (length p) (take (n - 8) p) (crc.hash-lt p) h (
            inl (
              omega (
                arith,
                length-take (n - 8) p,
                ap length (encode_layout r h),
                length-frame c (length p) p,
              )))
  ]

  -- A log of whole records reads back as those records.
  pub read_all_complete : (rs : List WalRecord) → All Fits rs → read_all (encode_all rs) ≡ rs
  read_all_complete rs h =
      ap read_all (sym (append-nil (encode_all rs)))
      ∙ read_all_stop rs [] h (λ fuel. read_tail_short fuel [] (omega arith))

  -- From complete records, each below 4 GiB, and then a proper prefix of one more, recovery reads
  -- exactly the complete records, in order.
  pub read_all_torn :
      (rs : List WalRecord) (r : WalRecord) (n : ℕ)
      → All Fits rs
      → Fits r
      → n < length (encode r)
      → read_all (encode_all rs ++ take n (encode r)) ≡ rs
  read_all_torn rs r n h hr lt =
      read_all_stop rs (take n (encode r)) h (λ fuel. read_tail_torn r n fuel hr lt)

  -- After complete records below 4 GiB, a frame whose payload is cut short or does not match its
  -- checksum ends the recovery: the records before it are read, and nothing of what follows.
  pub read_all_bad_frame :
      (rs : List WalRecord) (c n : ℕ) (body : Bytes)
      → All Fits rs
      → c < 2 ^ 32
      → n < 2 ^ 32
      → (length body < n) ⊎ (crc.hash (take n body) ≢ c)
      → read_all (encode_all rs ++ frame c n body) ≡ rs
  read_all_bad_frame rs c n body h hc hn bad =
      read_all_stop rs (frame c n body) h (λ fuel. read_tail_bad fuel c n body hc hn bad)
