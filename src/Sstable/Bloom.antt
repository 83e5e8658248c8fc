-- ===== src/Sstable/Bloom.antt =====
-- src/sstable/bloom.rs: the Bloom filter over the keys of a table. The number of hash functions
-- before its clamp, `((bits_per_key as f64) * LN_2).round() as u32`, is floating-point arithmetic
-- and a parameter.
pub mod Bits
pub mod Members
use Prim.Native.Nat.{bit_and, bit_or}
use flash_store.Prelude.{
  ℕ, zero, suc, ◌+◌, ◌-◌, ◌*◌, ◌/◌, ◌%◌, ◌^◌, ◌++◌, min, max, Bool, true, false, List, [], ◌∷◌,
  Option, none, some, length, get_elem?, set, replicate, take, ltb, leb, ◌==◌, if◌then◌else◌,
}
use flash_store.Bytes.{Bytes}
use flash_store.External.{Crc32}
use flash_store.Types.{Key}

pub record BloomFilter : Type 0 where
  pub bits_per_key : ℕ
  pub k_hashes : ℕ

-- `BloomFilter::new`, with the rounded product as an argument.
abbrev pub new : (ℕ → ℕ) → ℕ → BloomFilter
new rounded bits_per_key = record {
  bits_per_key = bits_per_key;
  k_hashes = min (max (rounded bits_per_key) 1) 30;
}

-- `u32::rotate_left(15)`
unfoldable pub rotate_left_15 : ℕ → ℕ
rotate_left_15 h = h * 2 ^ 15 % 2 ^ 32 + h / 2 ^ 17

-- A byte out of range does not occur; the default stands for the panic.
abbrev pub byte_at : Bytes → ℕ → ℕ
byte_at [] i = 0
byte_at (b ∷ bs) zero = b
byte_at (b ∷ bs) (suc i) = byte_at bs i

-- `filter[bit_pos / 8] |= 1 << (bit_pos % 8)`
unfoldable pub set_bit : Bytes → ℕ → Bytes
set_bit filter pos = set filter (pos / 8) (bit_or (byte_at filter (pos / 8)) (2 ^ (pos % 8)))

-- `filter_bytes[bit_pos / 8] & (1 << (bit_pos % 8)) != 0`
unfoldable pub has_bit : Bytes → ℕ → Bool
has_bit filter pos = if bit_and (byte_at filter (pos / 8)) (2 ^ (pos % 8)) == 0 then false else true

-- The inner loop of `build_from_keys`.
unfoldable pub set_bits : ℕ → ℕ → ℕ → ℕ → Bytes → Bytes
unfolding set_bit
set_bits zero num_bits delta h filter = filter
set_bits (suc k) num_bits delta h filter =
    set_bits k num_bits delta ((h + delta) % 2 ^ 32) (set_bit filter (h % num_bits))

-- The loop of `may_contain`.
unfoldable pub has_bits : ℕ → ℕ → ℕ → ℕ → Bytes → Bool
unfolding has_bit
has_bits zero num_bits delta h filter = true
has_bits (suc k) num_bits delta h filter =
    let rest = has_bits k num_bits delta ((h + delta) % 2 ^ 32) filter in
    if has_bit filter (h % num_bits) then rest else false

-- The number of bytes of bits: at least 64 bits, rounded up.
abbrev pub filter_bytes : ℕ → ℕ → ℕ
filter_bytes bits_per_key keys =
    let bits : ℕ = keys * bits_per_key in (if ltb bits 64 then 64 + 7 else bits + 7) / 8

module _ ⦃crc : Crc32⦄ where
  unfoldable pub add_keys : ℕ → ℕ → List Key → Bytes → Bytes
  unfolding set_bits rotate_left_15
  add_keys k num_bits [] filter = filter
  add_keys k num_bits (key ∷ keys) filter =
      add_keys k num_bits keys
        (set_bits k num_bits (rotate_left_15 (crc.hash key)) (crc.hash key) filter)

  unfoldable pub build_from_keys : BloomFilter → List Key → Bytes
  unfolding add_keys
  build_from_keys b [] = []
  build_from_keys b (key ∷ keys) =
      let bytes = filter_bytes b.bits_per_key (length (key ∷ keys)) in
      add_keys b.k_hashes (bytes * 8 % 2 ^ 32) (key ∷ keys)
        (set (replicate (bytes + 1) 0) bytes (b.k_hashes % 256))

  unfoldable pub may_contain : Bytes → Key → Bool
  unfolding has_bits rotate_left_15
  may_contain filter key =
      let bytes_len = length filter - 1 in
      if leb (length filter) 1
      then true
      else has_bits (byte_at filter bytes_len) (bytes_len * 8 % 2 ^ 32)
          (rotate_left_15 (crc.hash key)) (crc.hash key) filter
