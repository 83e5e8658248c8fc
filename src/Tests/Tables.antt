-- ===== src/Tests/Tables.antt =====
-- The results on the table builder and reader of src/sstable at concrete inputs.
use flash_store.Prelude.{
  ℕ, ◌≡◌, ◌⊎◌, refl, true, [], ◌∷◌, Option, none, some, inl, inr, ◌==◌, ◌&&◌, if◌then◌else◌, arith,
  Bool-cases, Bool, subst,
}
use flash_store.Bytes.{Bytes}
use flash_store.Config.{default_options}
use flash_store.Disk.{write_all}
use flash_store.Error.{ok}
use flash_store.Sstable.Block
use flash_store.Sstable.Block.Search.{find}
use flash_store.Sstable.Bloom
use flash_store.Sstable.Builder
use flash_store.Sstable.Builder.{Index, build_table}
use flash_store.Sstable.Footer
use flash_store.Sstable.Format.{fits_table, lookup_file, read_file, build_table-Reads}
use flash_store.Sstable.Reader.{TableReader, BlockCache, get, block_bytes, read_exact_at}
use flash_store.Sstable.Reader.Cached.{Coherent, get-Coherent}
use flash_store.Tables.{answer_of}
use flash_store.Types
use flash_store.Tests.Codecs.{entry_codec, index_codec}
use flash_store.Tests.Instances.{buf, crc}
use flash_store.Tests.Sstable.{two_entries, two_entries-IsSorted}
use flash_store.Tests.Types.{key_a, key_b}

-- A cache of one block.
abbrev OneBlock : Type 0
OneBlock = Option ((ℕ × ℕ) × Bytes)

abbrev same_key : ℕ × ℕ → ℕ × ℕ → Bool
same_key k j = (k.0 == j.0) && (k.1 == j.1)

abbrev held : OneBlock → ℕ × ℕ → Option Bytes
held none j = none
held (some (k, w)) j = if same_key k j then some w else none

held-insert :
    (c : OneBlock) (k : ℕ × ℕ) (v : Bytes) (j : ℕ × ℕ) (w : Bytes)
    → held (some (k, v)) j ≡ some w
    → ((j ≡ k) × (w ≡ v)) ⊎ (held c j ≡ some w)
held-insert c k v j w h = elim (Bool-cases (same_key k j)) [
  | inl same ↦ inl (ground (arith, same), ground (arith, h, same))
  | inr other ↦ absurd (ground (arith, h, other))
]

instance one_block : BlockCache OneBlock
one_block = record {
  get = λ c k. (held c k, c);
  insert = λ c k v. some (k, v);
  holds = held;
  get-holds = λ c k. refl;
  holds-get = λ c k j w h. h;
  holds-insert = held-insert;
}

two_entries_fit : fits_table (λ n. n) default_options two_entries ≡ true
unfolding fits_table build_table Builder.finish write_all Builder.flush_entries Builder.add_all
    Builder.add Types.estimated_size Block.encode Bloom.build_from_keys Footer.encode
two_entries_fit = refl

build_table-Reads_example :
    (lookup_file OneBlock 7 (build_table (λ n. n) default_options two_entries).0.content key_b
      ≡ ok (answer_of (find key_b two_entries)))
    × (read_file OneBlock 7 (build_table (λ n. n) default_options two_entries).0.content
        ≡ ok two_entries)
build_table-Reads_example =
    build_table-Reads OneBlock (λ n. n) default_options 7 two_entries key_b two_entries-IsSorted
      two_entries_fit

abbrev three_bytes : Bytes
three_bytes = 1 ∷ 2 ∷ 3 ∷ []

-- A reader of a file with one block, which is too short for a footer.
abbrev small_reader : TableReader
small_reader = record {
  file = three_bytes;
  file_number = 7;
  footer = Footer.new 3 0 3 0;
  first_keys = key_a ∷ [];
  block_offsets = 0 ∷ [];
  bloom_filter = [];
}

abbrev filled : OneBlock
filled = some ((7, 0), three_bytes)

filled-Coherent : Coherent (λ n i. block_bytes small_reader i) (some filled)
unfolding block_bytes read_exact_at one_block
filled-Coherent n i w h = elim (Bool-cases (same_key (7, 0) (n, i))) [
  | inl same ↦
      let first : i ≡ 0 = ground (arith, same) in
      let at_key : some three_bytes ≡ some w =
        subst (λ (b : Bool). (if b then some three_bytes else none) ≡ some w) same h in
      let bytes : w ≡ three_bytes = cc in rw (first, bytes) refl
  | inr other ↦ absurd (ground (arith, h, other))
]

get-Coherent_example :
    ((get small_reader key_a (some filled)).0 ≡ (get {C = OneBlock} small_reader key_a none).0)
    × Coherent (λ n i. block_bytes small_reader i) (get small_reader key_a (some filled)).1
get-Coherent_example =
    get-Coherent (λ n i. block_bytes small_reader i) small_reader (λ i. refl) key_a (some filled)
      filled-Coherent
