-- ===== src/Sstable/Footer.antt =====
-- src/sstable/footer.rs: the 48 bytes at the end of a table.
use flash_store.Prelude.{
  ℕ, ◌^◌, ◌<◌, ◌≡◌, refl, ◌++◌, [], length, ltb, ◌==◌, if◌then◌else◌, arith, append-nil,
}
use flash_store.Bytes.{Bytes}
use flash_store.Error.{Result, ok, err, corruption}
use flash_store.External.{Buf, to_le_bytes}

abbrev pub magic_number : ℕ
magic_number = 0xF1A5_4570_7265_3031

abbrev pub footer_size : ℕ
footer_size = 48

pub record Footer : Type 0 where
  pub meta_index_offset : ℕ
  pub meta_index_size : ℕ
  pub index_offset : ℕ
  pub index_size : ℕ
  pub magic : ℕ

abbrev pub new : ℕ → ℕ → ℕ → ℕ → Footer
new meta_index_offset meta_index_size index_offset index_size = record {
  meta_index_offset = meta_index_offset;
  meta_index_size = meta_index_size;
  index_offset = index_offset;
  index_size = index_size;
  magic = magic_number;
}

-- The fields are `u64`.
pub record Fits (f : Footer) : Type 0 where
  pub meta_index_offset : f.meta_index_offset < 2 ^ 64
  pub meta_index_size : f.meta_index_size < 2 ^ 64
  pub index_offset : f.index_offset < 2 ^ 64
  pub index_size : f.index_size < 2 ^ 64
  pub magic : f.magic < 2 ^ 64

module _ ⦃buf : Buf⦄ where
  unfoldable pub encode : Footer → Bytes
  encode f =
      buf.put_u64_le f.meta_index_offset
      ++ (buf.put_u64_le f.meta_index_size
          ++ (buf.put_u64_le f.index_offset
              ++ (buf.put_u64_le f.index_size ++ (buf.put_u64_le 0 ++ buf.put_u64_le f.magic))))

  unfoldable pub decode : Bytes → Result Footer
  decode d =
      if ltb (length d) footer_size
      then err corruption
      else let (meta_index_offset, d1) = buf.get_u64_le d in
        let (meta_index_size, d2) = buf.get_u64_le d1 in
        let (index_offset, d3) = buf.get_u64_le d2 in
        let (index_size, d4) = buf.get_u64_le d3 in
        let (_reserved, d5) = buf.get_u64_le d4 in
        let (magic, d6) = buf.get_u64_le d5 in
        if magic == magic_number
        then ok (record {
          meta_index_offset = meta_index_offset;
          meta_index_size = meta_index_size;
          index_offset = index_offset;
          index_size = index_size;
          magic = magic;
        })
        else err corruption

  -- The six words of a footer.
  abbrev pub words : Footer → Bytes
  words f =
      to_le_bytes 8 f.meta_index_offset
      ++ (to_le_bytes 8 f.meta_index_size
          ++ (to_le_bytes 8 f.index_offset
              ++ (to_le_bytes 8 f.index_size ++ (to_le_bytes 8 0 ++ to_le_bytes 8 f.magic))))

  pub encode-words : (f : Footer) → Fits f → encode f ≡ words f
  unfolding encode
  encode-words f h = rw (
    buf.put_u64_le_lem f.meta_index_offset h.meta_index_offset,
    buf.put_u64_le_lem f.meta_index_size h.meta_index_size,
    buf.put_u64_le_lem f.index_offset h.index_offset,
    buf.put_u64_le_lem f.index_size h.index_size,
    buf.put_u64_le_lem 0 (omega arith),
    buf.put_u64_le_lem f.magic h.magic,
  )

  -- A footer with fields below 2^64 takes 48 bytes, and reads back as written if it has the magic
  -- number; with any other it is refused.
  pub footer_decode-encode :
      (f : Footer)
      → Fits f
      → (length (encode f) ≡ footer_size)
        × (decode (encode f) ≡ (if f.magic == magic_number then ok f else err corruption))
  footer_decode-encode f h = rw (encode-words f h) (
    refl,
    unfold decode in
        rw (buf.get_u64_le_lem f.meta_index_offset _ h.meta_index_offset) (
          rw (buf.get_u64_le_lem f.meta_index_size _ h.meta_index_size) (
            rw (buf.get_u64_le_lem f.index_offset _ h.index_offset) (
              rw (buf.get_u64_le_lem f.index_size _ h.index_size) (
                rw (buf.get_u64_le_lem 0 _ (omega arith))
                  (rw (rw append-nil at (buf.get_u64_le_lem f.magic [] h.magic))))))),
  )
