-- ===== src/Sstable/Builder.antt =====
-- src/sstable/builder.rs: the file of a table, written from entries in key order. Operations on the
-- file succeed; sizes are 64-bit and wrap. The number of hash functions of the filter before its
-- clamp is floating-point arithmetic, and the parameter `rounded`.
pub mod Layout
use flash_store.Prelude.{ℕ, ◌+◌, ◌%◌, ◌^◌, List, [], ◌∷◌, ◌++◌, length, leb, if◌then◌else◌}
use flash_store.Bytes.{Bytes}
use flash_store.Config.{Options}
use flash_store.Disk.{File, write_all, sync_all}
use flash_store.External.{Buf, Crc32, Bincode}
use flash_store.Sstable.Block
use flash_store.Sstable.Bloom
use flash_store.Sstable.Footer
use flash_store.Types.{Key, Entry, estimated_size}

pub record TableBuilder : Type 0 where
  pub file : File
  pub options : Options
  pub current_entries : List Entry
  pub current_block_size : ℕ
  pub block_offsets : List ℕ
  pub first_keys : List Key
  pub all_keys : List Key
  pub offset : ℕ

abbrev pub new : Options → TableBuilder
new options = record {
  file = record { content = []; pos = 0; durable = [] };
  options = options;
  current_entries = [];
  current_block_size = 0;
  block_offsets = [];
  first_keys = [];
  all_keys = [];
  offset = 0;
}

-- The first key of a block is noted with its first entry.
abbrev pub note_first : List Entry → List Key → Key → List Key
note_first [] keys k = keys ++ k ∷ []
note_first (e ∷ es) keys k = keys

-- The first part of `add`: the entry joins the current block.
abbrev pub push_entry : TableBuilder → Entry → TableBuilder
push_entry b e = record b {
  first_keys = note_first b.current_entries b.first_keys e.key;
  all_keys = b.all_keys ++ e.key ∷ [];
  current_block_size = (b.current_block_size + estimated_size e) % 2 ^ 64;
  current_entries = b.current_entries ++ e ∷ [];
}

-- What is serialized as the index: the first keys and the offsets.
abbrev pub Index : Type 0
Index = List Key × List ℕ

module _ ⦃buf : Buf⦄ ⦃codec : Bincode Entry⦄ where
  unfoldable pub flush_entries : TableBuilder → List Entry → TableBuilder
  flush_entries b [] = b
  flush_entries b (e ∷ es) =
      let encoded = Block.encode (e ∷ es) in
      record b {
        file = write_all b.file encoded;
        block_offsets = b.block_offsets ++ b.offset ∷ [];
        offset = (b.offset + length encoded) % 2 ^ 64;
        current_entries = [];
        current_block_size = 0;
      }

  abbrev pub flush_block : TableBuilder → TableBuilder
  flush_block b = flush_entries b b.current_entries

  unfoldable pub add : TableBuilder → Entry → TableBuilder
  add b e =
      let added = push_entry b e in
      if leb added.options.block_size added.current_block_size then flush_block added else added

  unfoldable pub add_all : TableBuilder → List Entry → TableBuilder
  add_all b [] = b
  add_all b (e ∷ es) = add_all (add b e) es

  module _ ⦃crc : Crc32⦄ ⦃index_codec : Bincode Index⦄ where
    -- The file, and its size.
    unfoldable pub finish : (ℕ → ℕ) → TableBuilder → File × ℕ
    finish rounded b0 =
        let b = flush_block b0 in
        let filter_data =
          Bloom.build_from_keys (Bloom.new rounded b.options.bloom_bits_per_key) b.all_keys in
        let meta_index_size = length filter_data % 2 ^ 64 in
        let index_offset = (b.offset + meta_index_size) % 2 ^ 64 in
        let index_data = index_codec.serialize (b.first_keys, b.block_offsets) in
        let index_size = length index_data % 2 ^ 64 in
        let footer_bytes =
          Footer.encode (Footer.new b.offset meta_index_size index_offset index_size) in
        (
          sync_all (write_all (write_all (write_all b.file filter_data) index_data) footer_bytes),
          ((index_offset + index_size) % 2 ^ 64 + length footer_bytes) % 2 ^ 64,
        )

    unfoldable pub build_table : (ℕ → ℕ) → Options → List Entry → File × ℕ
    build_table rounded options es = finish rounded (add_all (new options) es)
