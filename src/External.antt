-- ===== src/External.antt =====
-- Third-party crates that the code calls, as interfaces with their documented behaviour: the
-- `Buf`/`BufMut` integer accessors of `bytes`, `crc32fast::hash`, and `bincode`.
use flash_store.Prelude.{
  ℕ, zero, suc, ◌+◌, ◌*◌, ◌/◌, ◌%◌, ◌^◌, ◌<◌, ◌≡◌, refl, [], ◌∷◌, ◌++◌, Option, some, length, arith,
  length-append,
}
use flash_store.Bytes.{Bytes}

-- `uN::to_le_bytes` and `uN::from_le_bytes` of the standard library, at a width in bytes.
abbrev pub to_le_bytes : ℕ → ℕ → Bytes
to_le_bytes zero n = []
to_le_bytes (suc w) n = (n % 256) ∷ to_le_bytes w (n / 256)

abbrev pub from_le_bytes : Bytes → ℕ
from_le_bytes [] = 0
from_le_bytes (b ∷ bs) = b + 256 * from_le_bytes bs

-- `uN::to_be_bytes` and `uN::from_be_bytes`.
unfoldable pub to_be_bytes : ℕ → ℕ → Bytes
to_be_bytes zero n = []
to_be_bytes (suc w) n = to_be_bytes w (n / 256) ++ n % 256 ∷ []

unfoldable pub from_be_bytes : ℕ → Bytes → ℕ
from_be_bytes acc [] = acc
from_be_bytes acc (b ∷ bs) = from_be_bytes (acc * 256 + b) bs

pub from_le_bytes-to_le_bytes_u32 : (n : ℕ) → n < 2 ^ 32 → from_le_bytes (to_le_bytes 4 n) ≡ n
from_le_bytes-to_le_bytes_u32 n h = omega arith

pub from_le_bytes-to_le_bytes_u64 : (n : ℕ) → n < 2 ^ 64 → from_le_bytes (to_le_bytes 8 n) ≡ n
from_le_bytes-to_le_bytes_u64 n h = omega arith

pub length-to_be_bytes : (w n : ℕ) → length (to_be_bytes w n) ≡ w
unfolding to_be_bytes
length-to_be_bytes zero n = refl
length-to_be_bytes (suc w) n = omega (
  arith,
  length-append (to_be_bytes w (n / 256)) ((n % 256) ∷ []),
  length-to_be_bytes w (n / 256),
)

from_be_bytes-append :
    (acc : ℕ) (a b : Bytes) → from_be_bytes acc (a ++ b) ≡ from_be_bytes (from_be_bytes acc a) b
unfolding from_be_bytes
from_be_bytes-append acc [] b = refl
from_be_bytes-append acc (x ∷ xs) b = from_be_bytes-append (acc * 256 + x) xs b

from_be_bytes-step :
    (w n : ℕ)
    → from_be_bytes 0 (to_be_bytes (suc w) n)
      ≡ from_be_bytes 0 (to_be_bytes w (n / 256)) * 256 + n % 256
unfolding to_be_bytes from_be_bytes
from_be_bytes-step w n = from_be_bytes-append 0 (to_be_bytes w (n / 256)) ((n % 256) ∷ [])

from_be_bytes-zero : (n : ℕ) → from_be_bytes 0 (to_be_bytes 0 n) ≡ 0
unfolding from_be_bytes to_be_bytes
from_be_bytes-zero n = refl

pub from_be_bytes-to_be_bytes : (n : ℕ) → n < 2 ^ 64 → from_be_bytes 0 (to_be_bytes 8 n) ≡ n
from_be_bytes-to_be_bytes n h = omega (
  arith,
  from_be_bytes-step 7 n,
  from_be_bytes-step 6 (n / 256),
  from_be_bytes-step 5 (n / 256 / 256),
  from_be_bytes-step 4 (n / 256 / 256 / 256),
  from_be_bytes-step 3 (n / 256 / 256 / 256 / 256),
  from_be_bytes-step 2 (n / 256 / 256 / 256 / 256 / 256),
  from_be_bytes-step 1 (n / 256 / 256 / 256 / 256 / 256 / 256),
  from_be_bytes-step 0 (n / 256 / 256 / 256 / 256 / 256 / 256 / 256),
  from_be_bytes-zero (n / 256 / 256 / 256 / 256 / 256 / 256 / 256 / 256),
)

-- `bytes::Buf` and `bytes::BufMut`.
pub record Buf : Type 0 where
  pub put_u32_le : ℕ → Bytes
  pub put_u64_le : ℕ → Bytes
  pub put_u64 : ℕ → Bytes
  pub put_u8 : ℕ → Bytes
  pub get_u32_le : Bytes → ℕ × Bytes
  pub get_u64_le : Bytes → ℕ × Bytes
  pub put_u32_le_lem : (n : ℕ) → n < 2 ^ 32 → put_u32_le n ≡ to_le_bytes 4 n
  pub put_u64_le_lem : (n : ℕ) → n < 2 ^ 64 → put_u64_le n ≡ to_le_bytes 8 n
  pub put_u64_lem : (n : ℕ) → n < 2 ^ 64 → put_u64 n ≡ to_be_bytes 8 n
  pub put_u8_lem : (n : ℕ) → n < 256 → put_u8 n ≡ n ∷ []
  pub get_u32_le_lem :
      (n : ℕ) (rest : Bytes) → n < 2 ^ 32 → get_u32_le (to_le_bytes 4 n ++ rest) ≡ (n, rest)
  pub get_u64_le_lem :
      (n : ℕ) (rest : Bytes) → n < 2 ^ 64 → get_u64_le (to_le_bytes 8 n ++ rest) ≡ (n, rest)

-- `crc32fast::hash`, and a `Hasher` that is fed once.
pub record Crc32 : Type 0 where
  pub hash : Bytes → ℕ
  pub hash-lt : (d : Bytes) → hash d < 2 ^ 32

-- `bincode::serialize` and `bincode::deserialize` at one type: what was written reads back.
pub record Bincode (A : Type 0) : Type 0 where
  pub serialize : A → Bytes
  pub deserialize : Bytes → Option A
  pub deserialize-serialize : (a : A) → deserialize (serialize a) ≡ some a
