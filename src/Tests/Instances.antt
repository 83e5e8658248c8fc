-- ===== src/Tests/Instances.antt =====
-- Instances of the interfaces to third-party code, and of the interface of a table, for the
-- examples.
use flash_store.Prelude.{
  ℕ, ◌+◌, ◌%◌, ◌^◌, ◌<◌, ◌≡◌, refl, ap, true, List, [], ◌∷◌, length, take, drop, arith,
}
use flash_store.Bytes.{Bytes}
use flash_store.Error.{ok}
use flash_store.External.{
  Buf, Crc32, to_le_bytes, to_be_bytes, from_le_bytes, from_le_bytes-to_le_bytes_u32,
  from_le_bytes-to_le_bytes_u64,
}
use flash_store.Sstable.Block.Search.{find}
use flash_store.Tables.{Tables, answer_of}
use flash_store.Types.{Entry}

pub byte : (n : ℕ) → n < 256 → (n % 256) ∷ [] ≡ n ∷ []
byte n h = ap (λ m. m ∷ []) (omega arith)

instance abbrev pub buf : Buf
buf = record {
  put_u32_le = to_le_bytes 4;
  put_u64_le = to_le_bytes 8;
  put_u64 = to_be_bytes 8;
  put_u8 = λ n. (n % 256) ∷ [];
  get_u32_le = λ b. (from_le_bytes (take 4 b), drop 4 b);
  get_u64_le = λ b. (from_le_bytes (take 8 b), drop 8 b);
  put_u32_le_lem = λ n h. refl;
  put_u64_le_lem = λ n h. refl;
  put_u64_lem = λ n h. refl;
  put_u8_lem = byte;
  get_u32_le_lem = λ n rest h. ap (λ m. (m, rest)) (from_le_bytes-to_le_bytes_u32 n h);
  get_u64_le_lem = λ n rest h. ap (λ m. (m, rest)) (from_le_bytes-to_le_bytes_u64 n h);
}

abbrev pub sum : Bytes → ℕ
sum [] = 0
sum (b ∷ bs) = b + sum bs

-- The sum of the bytes in the place of the checksum.
instance abbrev pub crc : Crc32
crc = record { hash = λ d. sum d % 2 ^ 32; hash-lt = λ d. omega arith }

-- A table that is the list of its entries.
instance abbrev pub tables : Tables (List Entry)
tables = record {
  build = λ es. (es, length es);
  lookup = λ t k. ok (answer_of (find k t));
  read_all = ok;
  fits = λ es. true;
  lookup-build = λ es k h fit. refl;
  read_all-build = λ es h fit. refl;
}
