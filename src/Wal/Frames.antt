-- ===== src/Wal/Frames.antt =====
-- What one frame of the log decodes to.
use flash_store.Prelude.{
  ℕ, ◌+◌, ◌%◌, ◌^◌, ◌<◌, ◌≡◌, ◌++◌, length, take, drop, arith, take_all, le→ltb, ==-refl,
}
use flash_store.Bytes.{Bytes}
use flash_store.Error.{ok}
use flash_store.External.{
  Buf, Crc32, Bincode, to_le_bytes, from_le_bytes, from_le_bytes-to_le_bytes_u32,
}
use flash_store.Wal.Record.{WalRecord, encode, decode, decode_payload}

-- A header and what follows it.
abbrev pub frame : ℕ → ℕ → Bytes → Bytes
frame c n body = to_le_bytes 4 c ++ (to_le_bytes 4 n ++ body)

pub length-frame : (c n : ℕ) (body : Bytes) → length (frame c n body) ≡ 8 + length body
length-frame c n body = omega arith

pub frame_len :
    (c n : ℕ) (body : Bytes) → n < 2 ^ 32 → from_le_bytes (take 4 (drop 4 (frame c n body))) ≡ n
frame_len c n body h = from_le_bytes-to_le_bytes_u32 n h

-- The log can hold a record whose payload's length fits its field.
abbrev pub Fits : ⦃codec : Bincode WalRecord⦄ → WalRecord → Type 0
Fits ⦃codec⦄ r = length (codec.serialize r) < 2 ^ 32

module _ ⦃buf : Buf⦄ ⦃crc : Crc32⦄ ⦃codec : Bincode WalRecord⦄ where
  pub encode_layout :
      (r : WalRecord)
      → Fits r
      → encode r
        ≡ frame (crc.hash (codec.serialize r)) (length (codec.serialize r)) (codec.serialize r)
  unfolding encode
  encode_layout r h =
      let p = codec.serialize r in
      let fits : length p % 2 ^ 32 ≡ length p = omega arith in
      rw fits
        (rw (buf.put_u32_le_lem (crc.hash p) (crc.hash-lt p), buf.put_u32_le_lem (length p) h))

  pub decode-frame :
      (c n : ℕ) (body : Bytes)
      → c < 2 ^ 32
      → n < 2 ^ 32
      → decode (frame c n body) ≡ decode_payload c n body
  unfolding decode
  decode-frame c n body hc hn =
      rw (le→ltb (length (frame c n body)) 8 (omega (arith, length-frame c n body)))
        (rw (buf.get_u32_le_lem c (to_le_bytes 4 n ++ body) hc) (rw (buf.get_u32_le_lem n body hn)))

  -- Decoding inverts encoding.
  pub decode-encode : (r : WalRecord) → Fits r → decode (encode r) ≡ ok r
  unfolding decode_payload
  decode-encode r h =
      let p = codec.serialize r in
      rw (encode_layout r h) (
        rw (decode-frame (crc.hash p) (length p) p (crc.hash-lt p) h) (
          rw (
            le→ltb (length p) (length p) (omega arith),
            take_all (length p) p (omega arith),
            ==-refl (crc.hash p),
            codec.deserialize-serialize r,
          )))
