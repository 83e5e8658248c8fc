-- ===== src/Error.antt =====
-- src/error.rs: `FlashStoreError` without its messages, and `Result`.

pub data Error : Type 0 where
  io corruption compaction_error invalid_argument wal_error table_error lock_error : Error
  bincode_error json_error rag agent reflection mcp other : Error
  vector_dimension_mismatch tool_error : Error

pub data Result {ℓ} (A : Type ℓ) : Type ℓ where
  err : Error → Result A
  ok : A → Result A

-- The `?` operator, and what follows it.
infixl 5 ◌>>=◌
abbrev pub ◌>>=◌ {ℓ κ} : {A : Type ℓ} {B : Type κ} → Result A → (A → Result B) → Result B
r >>= next = elim r [ err e ↦ err e | ok a ↦ next a ]
