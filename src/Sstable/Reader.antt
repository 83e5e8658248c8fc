-- ===== src/Sstable/Reader.antt =====
-- src/sstable/reader.rs: a table that is opened from the bytes of its file, with or without a block
-- cache. `read_exact` past the end of the file is an I/O error.
pub mod Locate
pub mod Opening
pub mod Blocks
pub mod Cached
pub mod Answers
use flash_store.Prelude.{
  ℕ, zero, suc, ◌≡◌, ◌⊎◌, ◌+◌, ◌-◌, ◌%◌, ◌^◌, List, [], ◌∷◌, ◌++◌, Option, none, some, length, take,
  drop, get_elem?, ltb, leb, ◌==◌, not, if◌then◌else◌,
}
use flash_store.Bytes.{Bytes, key_lt, key_eq}
use flash_store.Error.{Result, ok, err, io, corruption, other, ◌>>=◌}
use flash_store.External.{Buf, Crc32, Bincode}
use flash_store.Sstable.Block
use flash_store.Sstable.Block.{Block, get_entry, get_by_key}
use flash_store.Sstable.Bloom.{may_contain}
use flash_store.Sstable.Builder.{Index}
use flash_store.Sstable.Footer
use flash_store.Sstable.Footer.{Footer, footer_size}
use flash_store.Tables.{answer_of}
use flash_store.Types.{Key, Value, Entry}

pub record TableReader : Type 0 where
  pub file : Bytes
  pub file_number : ℕ
  pub footer : Footer
  pub first_keys : List Key
  pub block_offsets : List ℕ
  pub bloom_filter : Bytes

-- `BlockCache` of src/cache/mod.rs as the reader calls it. `holds` is what the cache has under a
-- key: a call may change the order of use, or drop what is held, but makes nothing up.
pub record BlockCache (C : Type 0) : Type 0 where
  pub get : C → ℕ × ℕ → Option Bytes × C
  pub insert : C → ℕ × ℕ → Bytes → C
  pub holds : C → ℕ × ℕ → Option Bytes
  pub get-holds : (c : C) (k : ℕ × ℕ) → (get c k).0 ≡ holds c k
  pub holds-get :
      (c : C) (k j : ℕ × ℕ) (w : Bytes) → holds (get c k).1 j ≡ some w → holds c j ≡ some w
  pub holds-insert :
      (c : C) (k : ℕ × ℕ) (v : Bytes) (j : ℕ × ℕ) (w : Bytes)
      → holds (insert c k v) j ≡ some w
      → ((j ≡ k) × (w ≡ v)) ⊎ (holds c j ≡ some w)

-- A seek to `start` and a `read_exact` of `size` bytes.
unfoldable pub read_exact_at : Bytes → ℕ → ℕ → Result Bytes
read_exact_at file start size =
    if leb (start + size) (length file) then ok (take size (drop start file)) else err io

-- `binary_search` of a sorted slice of the standard library.
pub data SearchResult : Type 0 where
  found insert_at : ℕ → SearchResult

unfoldable pub insertion_point : List Key → Key → ℕ
insertion_point [] k = 0
insertion_point (j ∷ js) k = let rest = insertion_point js k in if key_lt j k then suc rest else 0

unfoldable pub binary_search : List Key → Key → SearchResult
binary_search keys k =
    let i = insertion_point keys k in
    elim (get_elem? keys i) [
      | none ↦ insert_at i
      | some j ↦ if key_eq j k then found i else insert_at i
    ]

-- The block that may hold the key.
abbrev pub block_idx : SearchResult → ℕ
block_idx (found i) = i
block_idx (insert_at zero) = 0
block_idx (insert_at (suc i)) = i

module _ ⦃buf : Buf⦄ ⦃index_codec : Bincode Index⦄ where
  unfoldable pub open_table : ℕ → Bytes → Result TableReader
  open_table file_number file =
      if ltb (length file) footer_size
      then err corruption
      else read_exact_at file (length file - footer_size) footer_size >>= (λ footer_buf.
        Footer.decode footer_buf >>= (λ footer.
          read_exact_at file footer.meta_index_offset footer.meta_index_size >>= (λ bloom_buf.
            read_exact_at file footer.index_offset footer.index_size >>= (λ index_buf.
              elim (index_codec.deserialize index_buf) [
                | none ↦ err corruption
                | some (first_keys, block_offsets) ↦ ok (record {
                  file = file;
                  file_number = file_number;
                  footer = footer;
                  first_keys = first_keys;
                  block_offsets = block_offsets;
                  bloom_filter = bloom_buf;
                })
              ]))))

-- The end of a block: the start of the next one, or of the filter.
abbrev pub end_or : Option ℕ → ℕ → ℕ
end_or none n = n
end_or (some m) n = m

-- The bytes from a start to an end, a `u64` subtraction. An index out of range, at which the
-- program would panic, is not reached from `get` and `read_all_entries`.
abbrev pub read_span : Bytes → Option ℕ → ℕ → Result Bytes
read_span file none end_offset = err other
read_span file (some start_offset) end_offset =
    read_exact_at file start_offset ((end_offset + 2 ^ 64 - start_offset) % 2 ^ 64)

-- The bytes of a block in the file.
unfoldable pub block_bytes : TableReader → ℕ → Result Bytes
block_bytes r index =
    read_span r.file (get_elem? r.block_offsets index)
      (end_or (get_elem? r.block_offsets (index + 1)) r.footer.meta_index_offset)

-- `if let Some(entry) = … { entries.push(entry) }`, from the last entry on.
abbrev pub push : Option Entry → List Entry → List Entry
push none rest = rest
push (some e) rest = e ∷ rest

module _ ⦃buf : Buf⦄ ⦃codec : Bincode Entry⦄ where
  abbrev pub answer_in : Key → Result Block → Result (Option (Option Value))
  answer_in key (err e) = err e
  answer_in key (ok block) = ok (answer_of (get_by_key block key))

  -- The entries of a block from an index on; one that cannot be read is passed over.
  unfoldable pub block_entries : Block → ℕ → ℕ → List Entry
  block_entries block zero i = []
  block_entries block (suc n) i = push (get_entry block i) (block_entries block n (i + 1))

  module _ {C : Type 0} ⦃cache : BlockCache C⦄ where
    -- A block that is not in the cache is read from the file, and put into it.
    abbrev pub fill : C → ℕ × ℕ → Result Bytes → Result Block × C
    fill c k (err e) = (err e, c)
    fill c k (ok b) = (Block.decode b, cache.insert c k b)

    abbrev pub read_cached : TableReader → ℕ → Option Bytes × C → Result Block × C
    read_cached r index (some cached_bytes, c) = (Block.decode cached_bytes, c)
    read_cached r index (none, c) = fill c (r.file_number, index) (block_bytes r index)

    unfoldable pub read_block : TableReader → ℕ → Option C → Result Block × Option C
    read_block r index none = (block_bytes r index >>= Block.decode, none)
    read_block r index (some c) =
        let (block, c') = read_cached r index (cache.get c (r.file_number, index)) in
        (block, some c')

    unfoldable pub get :
        ⦃crc : Crc32⦄ → TableReader → Key → Option C → Result (Option (Option Value)) × Option C
    get r key c =
        let i = block_idx (binary_search r.first_keys key) in
        let (block, c') = read_block r i c in
        if length r.block_offsets == 0
        then (ok none, c)
        else if not (may_contain r.bloom_filter key)
        then (ok none, c)
        else if leb (length r.block_offsets) i
        then (ok none, c)
        else (answer_in key block, c')

    -- The entries of a block, before those of the blocks behind it; an error ends the loop.
    abbrev pub and_block :
        Result Block → Option C → Result (List Entry) × Option C → Result (List Entry) × Option C
    and_block (err e) c rest = (err e, c)
    and_block (ok b) c (rest, c') =
        (rest >>= (λ es. ok (block_entries b (length b.offsets) 0 ++ es)), c')

    -- The loop over the blocks from an index on.
    unfoldable pub read_from : TableReader → ℕ → ℕ → Option C → Result (List Entry) × Option C
    read_from r zero idx c = (ok [], c)
    read_from r (suc n) idx c =
        let (block, c') = read_block r idx c in and_block block c' (read_from r n (idx + 1) c')

    unfoldable pub read_all_entries : TableReader → Option C → Result (List Entry) × Option C
    read_all_entries r c = read_from r (length r.block_offsets) 0 c
