-- ===== src/Sstable/Format.antt =====
-- The table files of src/sstable fill the interface that the engine takes.
use flash_store.Prelude.{
  ℕ, ◌*◌, ◌^◌, ◌<◌, ◌≡◌, refl, ap, sym, ◌∙◌, List, Bool, true, ◌&&◌, Option, none, some, length,
  ltb, arith, append-nil, length-append, ltb→lt, subst, ◌++◌, inr,
}
use flash_store.Bytes.{Bytes}
use flash_store.Config.{Options}
use flash_store.Error.{Result, ok, ◌>>=◌}
use flash_store.External.{Buf, Crc32, Bincode}
use flash_store.Sstable.Block.Codec.{body}
use flash_store.Sstable.Block.Search.{IsSorted, find}
use flash_store.Sstable.Bloom
use flash_store.Sstable.Bloom.{filter_bytes, may_contain}
use flash_store.Sstable.Bloom.Members.{may_contain-build}
use flash_store.Sstable.Builder.{Index, new, add_all, build_table}
use flash_store.Sstable.Builder.Layout.{
  concat, keys_of, heads, starts, encode_blocks, flushed-Given,
}
use flash_store.Sstable.Reader.{BlockCache, open_table, get, read_all_entries}
use flash_store.Sstable.Reader.Answers.{find-key, length-keys_of, get-find, read_all-concat}
use flash_store.Sstable.Reader.Opening.{reader_of, open_table-reader_of, finish-reader_of}
use flash_store.Tables.{answer_of}
use flash_store.Types.{Key, Value, Entry}

and3 : (a b c : Bool) → (a && (b && c)) ≡ true → (a ≡ true) × (b ≡ true) × (c ≡ true)
and3 a b c h = ground (arith, h)

module _ ⦃buf : Buf⦄ ⦃codec : Bincode Entry⦄ ⦃crc : Crc32⦄ ⦃index_codec : Bincode Index⦄ where
  -- What the format can hold: bodies and a filter below 4 GiB, and a file below 2^64 bytes.
  unfoldable pub fits_table : (ℕ → ℕ) → Options → List Entry → Bool
  fits_table rounded options es =
      ltb (length (body es)) (2 ^ 32)
      && (ltb (filter_bytes options.bloom_bits_per_key (length es) * 8) (2 ^ 32)
          && ltb (length (build_table rounded options es).0.content) (2 ^ 64))

  -- The filter of the keys passes a key that is found.
  passes :
      (rounded : ℕ → ℕ) (options : Options) (es : List Entry) (k : Key) (e : Entry)
      → filter_bytes options.bloom_bits_per_key (length es) * 8 < 2 ^ 32
      → find k es ≡ some e
      → may_contain
          (Bloom.build_from_keys (Bloom.new rounded options.bloom_bits_per_key) (keys_of es))
          k
        ≡ true
  passes rounded options es k e small at =
      let (i, key_at) = find-key k es e at in
      may_contain-build rounded options.bloom_bits_per_key (keys_of es) i k
        (rw (length-keys_of es) small) key_at

  module _ (C : Type 0) ⦃cache : BlockCache C⦄ where
    -- A lookup in the bytes of a file, which is opened for it.
    abbrev pub lookup_file : ℕ → Bytes → Key → Result (Option (Option Value))
    lookup_file number file k = open_table number file >>= (λ r. (get {C = C} r k none).0)

    abbrev pub read_file : ℕ → Bytes → Result (List Entry)
    read_file number file = open_table number file >>= (λ r. (read_all_entries {C = C} r none).0)

    -- From strictly ascending entries that the format can hold, the builder writes a file that
    -- the reader opens; without a cache, a lookup in it answers by the entry of the key, and a
    -- scan gives the entries.
    pub build_table-Reads :
        (rounded : ℕ → ℕ) (options : Options) (number : ℕ) (es : List Entry) (k : Key)
        → IsSorted es
        → fits_table rounded options es ≡ true
        → (lookup_file number (build_table rounded options es).0.content k
            ≡ ok (answer_of (find k es)))
          × (read_file number (build_table rounded options es).0.content ≡ ok es)
    unfolding fits_table build_table
    build_table-Reads rounded options number es k s fit =
        let (g, none_left) = flushed-Given options es in
        let bs = g.blocks in
        let all : concat bs ≡ es =
          sym (append-nil (concat bs)) ∙ ap (λ c. concat bs ++ c) (sym none_left) ∙ g.given in
        let filter =
          Bloom.build_from_keys (Bloom.new rounded options.bloom_bits_per_key)
            (keys_of (concat bs)) in
        let r = reader_of number (encode_blocks bs) filter (heads bs, starts 0 bs) in
        let (bodies, bits, size) = and3 _ _ _ fit in
        let small = ltb→lt _ _ size in
        let file =
          finish-reader_of rounded options (add_all (new options) es) bs number g.holds none_left
            small in
        let opened =
          open_table-reader_of number (encode_blocks bs) filter (heads bs, starts 0 bs)
            (subst (λ c. length c < 2 ^ 64) file small) in
        let bodies_bs : length (body (concat bs)) < 2 ^ 32 = rw all (ltb→lt _ _ bodies) in
        let sorted : IsSorted (concat bs) = rw all s in
        let within : length (encode_blocks bs) < 2 ^ 64 =
          omega (
            arith,
            length-append (encode_blocks bs) _,
            subst (λ c. length c < 2 ^ 64) file small,
          ) in
        (
          ap (λ c. lookup_file number c k) file
              ∙ ap (λ o. o >>= (λ t. (get {C = C} t k none).0)) opened
              ∙ get-find bs number filter within bodies_bs sorted g.holds.full C k
                  (λ e at. passes rounded options (concat bs) k e (rw all (ltb→lt _ _ bits)) at)
              ∙ ap (λ xs. ok (answer_of (find k xs))) all,
          ap (read_file number) file
              ∙ ap (λ o. o >>= (λ t. (read_all_entries {C = C} t none).0)) opened
              ∙ read_all-concat bs number filter within bodies_bs sorted g.holds.full C
              ∙ ap ok all,
        )

-- Reading without a cache.
abbrev pub NoCache : Type 0
NoCache = Unit {0}

instance pub no_cache : BlockCache NoCache
no_cache = record {
  get = λ c k. (none, c);
  insert = λ c k v. c;
  holds = λ c k. none;
  get-holds = λ c k. refl;
  holds-get = λ c k j w h. h;
  holds-insert = λ c k v j w h. inr h;
}
