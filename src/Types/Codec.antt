-- ===== src/Types/Codec.antt =====
-- `InternalKey::encode` and `InternalKey::decode` of src/types.rs.
use flash_store.Prelude.{
  ℕ, ◌∙◌, ◌+◌, ◌-◌, ◌^◌, ◌<◌, ◌≡◌, refl, ap, [], ◌∷◌, ◌++◌, length, take, drop, arith, sym, le→ltb,
  length-append, take_append, drop_append, drop_past,
}
use flash_store.Bytes.{Bytes}
use flash_store.Error.{ok, err, corruption}
use flash_store.External.{
  Buf, to_be_bytes, length-to_be_bytes, from_be_bytes, from_be_bytes-to_be_bytes,
}
use flash_store.Types.{
  InternalKey, ValueType, as_u8, encode, decode, encoded_len, try_from_u8, first,
}
use flash_store.Types.ValueType.{value, tombstone}

-- How the parts of `user_key ++ seq_no ++ tag` are found again from the total length.
cut_at_tail :
    (u b : Bytes) (t : ℕ) (n : ℕ)
    → length b ≡ 8
    → n ≡ length u
    → (take n (u ++ (b ++ t ∷ [])) ≡ u)
      × (take 8 (drop n (u ++ (b ++ t ∷ []))) ≡ b)
      × (first (drop (n + 8) (u ++ (b ++ t ∷ []))) ≡ t)
cut_at_tail u b t n h e = (
  take_append u _ n e,
  rw (drop_append u (b ++ t ∷ []) n e) (take_append b _ 8 (sym h)),
  ap first (drop_past u (b ++ t ∷ []) (n + 8) 8 (omega arith) ∙ drop_append b (t ∷ []) 8 (sym h)),
)

length_layout : (u b : Bytes) (t : ℕ) → length b ≡ 8 → length (u ++ (b ++ t ∷ [])) ≡ length u + 9
length_layout u b t h = omega (arith, length-append u (b ++ t ∷ []), length-append b (t ∷ []))

try_from_u8-as_u8 : (t : ValueType) → try_from_u8 (as_u8 t) ≡ ok t
unfolding try_from_u8
try_from_u8-as_u8 value = refl
try_from_u8-as_u8 tombstone = refl

decode_layout :
    (u b : Bytes) (t : ValueType)
    → length b ≡ 8
    → decode (u ++ (b ++ as_u8 t ∷ []))
      ≡ ok (record { user_key = u; seq_no = from_be_bytes 0 b; value_type = t })
unfolding decode
decode_layout u b t h =
    let d = u ++ (b ++ as_u8 t ∷ []) in
    let len = length_layout u b (as_u8 t) h in
    let cut = cut_at_tail u b (as_u8 t) (length d - 9) h (omega (arith, len)) in
    rw (le→ltb (length d) 9 (omega (arith, len)))
      (rw cut.2 (rw (try_from_u8-as_u8 t) (rw cut.0 (rw cut.1))))

as_u8-lt : (t : ValueType) → as_u8 t < 256
as_u8-lt value = omega arith
as_u8-lt tombstone = omega arith

module _ ⦃buf : Buf⦄ where
  encode_layout :
      (k : InternalKey)
      → k.seq_no < 2 ^ 64
      → encode k ≡ k.user_key ++ (to_be_bytes 8 k.seq_no ++ as_u8 k.value_type ∷ [])
  unfolding encode
  encode_layout k h =
      rw (buf.put_u64_lem k.seq_no h, buf.put_u8_lem (as_u8 k.value_type) (as_u8-lt k.value_type))

  -- With a sequence number below 2^64, decoding inverts encoding an internal key, and the
  -- encoding has the length that `encoded_len` says.
  pub decode-encode :
      (k : InternalKey)
      → k.seq_no < 2 ^ 64
      → (decode (encode k) ≡ ok k) × (length (encode k) ≡ encoded_len k)
  decode-encode k h =
      let b = to_be_bytes 8 k.seq_no in
      let eight = length-to_be_bytes 8 k.seq_no in
      rw (encode_layout k h) (
        decode_layout k.user_key b k.value_type eight
            ∙ ap (λ n. ok (record k { seq_no = n })) (from_be_bytes-to_be_bytes k.seq_no h),
        omega (arith, length_layout k.user_key b (as_u8 k.value_type) eight),
      )

pub decode_short : (d : Bytes) → length d < 9 → decode d ≡ err corruption
unfolding decode
decode_short d h = ground arith
