-- ===== src/Sstable/Reader/Opening.antt =====
-- Opening the file that the builder wrote.
use flash_store.Prelude.{
  true, false, ℕ, ◌+◌, ◌-◌, ◌%◌, ◌^◌, ◌<◌, ◌≡◌, refl, ap, sym, ◌∙◌, List, [], ◌++◌, length, leb,
  ltb, arith, append-nil, append_assoc, length-append, take_append, drop_append, le→leb, le→ltb,
  take,
}
use flash_store.Bytes.{Bytes}
use flash_store.Config.{Options}
use flash_store.Disk.{File, write_all, write_all_at_end}
use flash_store.Error.{ok}
use flash_store.External.{Buf, Crc32, Bincode}
use flash_store.Sstable.Bloom
use flash_store.Sstable.Footer
use flash_store.Sstable.Footer.{Footer, footer_size, footer_decode-encode}
use flash_store.Sstable.Builder.{Index, TableBuilder, flush_block, finish}
use flash_store.Sstable.Builder.Layout.{
  head_of, Holds, encode_blocks, concat, keys_of, heads, starts,
}
use flash_store.Sstable.Reader.{TableReader, read_exact_at, open_table}
use flash_store.Types.{Entry}

pub read_exact_middle :
    (a b c : Bytes) (start size : ℕ)
    → start ≡ length a
    → size ≡ length b
    → read_exact_at (a ++ (b ++ c)) start size ≡ ok b
unfolding read_exact_at
read_exact_middle a b c start size p q =
    let inside : leb (start + size) (length (a ++ (b ++ c))) ≡ true =
      le→leb _ _ (omega (arith, length-append a (b ++ c), length-append b c)) in
    rw inside
      (ap (λ d. ok (take size d)) (drop_append a (b ++ c) start p) ∙ ap ok (take_append b c size q))

module _ ⦃buf : Buf⦄ ⦃index_codec : Bincode Index⦄ where
  -- The reader of a file of the parts data, filter and index.
  abbrev pub reader_of : ℕ → (data_bytes filter : Bytes) → Index → TableReader
  reader_of n data_bytes filter index =
      let index_bytes = index_codec.serialize index in
      let footer =
        Footer.new (length data_bytes) (length filter) (length data_bytes + length filter)
          (length index_bytes) in
      record {
        file = data_bytes ++ (filter ++ (index_bytes ++ Footer.encode footer));
        file_number = n;
        footer = footer;
        first_keys = index.0;
        block_offsets = index.1;
        bloom_filter = filter;
      }

  pub open_table-reader_of :
      (n : ℕ) (data_bytes filter : Bytes) (index : Index)
      → length (reader_of n data_bytes filter index).file < 2 ^ 64
      → open_table n (reader_of n data_bytes filter index).file
        ≡ ok (reader_of n data_bytes filter index)
  unfolding open_table
  open_table-reader_of n data_bytes filter index h =
      let i = index_codec.serialize index in
      let r = reader_of n data_bytes filter index in
      let foot = Footer.encode r.footer in
      let len : length r.file ≡ length data_bytes + (length filter + (length i + length foot)) =
        length-append data_bytes (filter ++ (i ++ foot))
        ∙ ap (λ m. length data_bytes + m)
            (length-append filter (i ++ foot)
              ∙ ap (λ m. length filter + m) (length-append i foot)) in
      let (flen, decoded) = footer_decode-encode r.footer (record {
        meta_index_offset = omega arith;
        meta_index_size = omega arith;
        index_offset = omega arith;
        index_size = omega arith;
        magic = omega arith;
      }) in
      let front : r.file ≡ (data_bytes ++ (filter ++ i)) ++ (foot ++ []) = sym (
        ap (λ d. (data_bytes ++ (filter ++ i)) ++ d) (append-nil foot)
        ∙ append_assoc data_bytes (filter ++ i) foot
        ∙ ap (λ d. data_bytes ++ d) (append_assoc filter i foot)) in
      let middle : r.file ≡ (data_bytes ++ filter) ++ (i ++ foot) =
        sym (append_assoc data_bytes filter (i ++ foot)) in
      let long : ltb (length r.file) footer_size ≡ false = le→ltb _ _ (omega arith) in
      let foot_read : read_exact_at r.file (length r.file - footer_size) footer_size ≡ ok foot =
        ap (λ d. read_exact_at d (length r.file - footer_size) footer_size) front
        ∙ read_exact_middle (data_bytes ++ (filter ++ i)) foot [] _ _
            (omega (arith, length-append data_bytes (filter ++ i), length-append filter i))
            (sym flen) in
      let filter_read : read_exact_at r.file (length data_bytes) (length filter) ≡ ok filter =
        read_exact_middle data_bytes filter (i ++ foot) _ _ refl refl in
      let index_read : read_exact_at r.file (length data_bytes + length filter) (length i) ≡ ok i =
        ap (λ d. read_exact_at d (length data_bytes + length filter) (length i)) middle
        ∙ read_exact_middle (data_bytes ++ filter) i foot _ _
            (sym (length-append data_bytes filter)) refl in
      rw long (
        rw foot_read (
          rw decoded
            (rw filter_read (rw index_read (rw (index_codec.deserialize-serialize index) refl)))))

writes-append :
    (f : File) (a b c : Bytes)
    → f.pos ≡ length f.content
    → (write_all (write_all (write_all f a) b) c).content ≡ f.content ++ (a ++ (b ++ c))
writes-append f a b c h =
    let (p, h1) = write_all_at_end f a h in
    let (q, h2) = write_all_at_end (write_all f a) b h1 in
    let (r, h3) = write_all_at_end (write_all (write_all f a) b) c h2 in
    r
    ∙ ap (λ d. d ++ c) (q ∙ ap (λ d. d ++ b) p)
    ∙ append_assoc (f.content ++ a) b c
    ∙ append_assoc f.content a (b ++ c)

-- The footer as `finish` computes it, with 64-bit sums.
abbrev wrapped : Bytes → Bytes → Bytes → Footer
wrapped d f i =
    Footer.new (length d % 2 ^ 64) (length f % 2 ^ 64)
      ((length d % 2 ^ 64 + length f % 2 ^ 64) % 2 ^ 64) (length i % 2 ^ 64)

wrapped-exact :
    (d f i : Bytes)
    → length d + (length f + length i) < 2 ^ 64
    → wrapped d f i ≡ Footer.new (length d) (length f) (length d + length f) (length i)
wrapped-exact d f i h =
    let p : length d % 2 ^ 64 ≡ length d = omega arith in
    let q : length f % 2 ^ 64 ≡ length f = omega arith in
    let r : (length d + length f) % 2 ^ 64 ≡ length d + length f = omega arith in
    let s : length i % 2 ^ 64 ≡ length i = omega arith in rw (p, q, r, s) refl

length-parts :
    (d f i foot c : Bytes)
    → length (d ++ (f ++ (i ++ foot))) ≡ length c
    → length c < 2 ^ 64
    → length d + (length f + length i) < 2 ^ 64
length-parts d f i foot e h =
    omega
      (arith, length-append d (f ++ (i ++ foot)), length-append f (i ++ foot), length-append i foot)

module _ ⦃buf : Buf⦄ ⦃codec : Bincode Entry⦄ ⦃crc : Crc32⦄ ⦃index_codec : Bincode Index⦄ where
  pub finish-reader_of :
      (rounded : ℕ → ℕ) (options : Options) (b0 : TableBuilder) (blocks : List (List Entry)) (n : ℕ)
      → Holds options (flush_block b0) blocks
      → (flush_block b0).current_entries ≡ []
      → length (finish rounded b0).0.content < 2 ^ 64
      → (finish rounded b0).0.content
        ≡ (reader_of n
            (encode_blocks blocks)
            (Bloom.build_from_keys
              (Bloom.new rounded options.bloom_bits_per_key)
              (keys_of (concat blocks)))
            (heads blocks, starts 0 blocks)).file
  unfolding finish
  finish-reader_of rounded options b0 blocks n h e small =
      let b = flush_block b0 in
      let data_bytes = encode_blocks blocks in
      let filter =
        Bloom.build_from_keys (Bloom.new rounded options.bloom_bits_per_key)
          (keys_of (concat blocks)) in
      let i = index_codec.serialize (heads blocks, starts 0 blocks) in
      let keys : b.all_keys ≡ keys_of (concat blocks) =
        h.keys
        ∙ ap (λ c. keys_of (concat blocks ++ c)) e
        ∙ ap keys_of (append-nil (concat blocks)) in
      let firsts : b.first_keys ≡ heads blocks =
        h.firsts ∙ ap (λ c. heads blocks ++ head_of c) e ∙ append-nil (heads blocks) in
      let parts : (finish rounded b0).0.content
          ≡ data_bytes ++ (filter ++ (i ++ Footer.encode (wrapped data_bytes filter i))) =
        writes-append b.file _ _ _ h.at_end
        ∙ rw (h.options_kept, keys, firsts, h.offsets, h.offset, h.content) refl in
      parts
      ∙ ap (λ f. data_bytes ++ (filter ++ (i ++ Footer.encode f)))
          (wrapped-exact data_bytes filter i
            (length-parts data_bytes filter i _ _ (ap length (sym parts)) small))
