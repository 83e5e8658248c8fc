-- ===== src/Wal/Record.antt =====
-- src/wal/record.rs: one framed record, `[crc32: 4][length: 4][payload]`.
use flash_store.Prelude.{
  ℕ, ◌%◌, ◌^◌, ◌++◌, Bool, none, some, length, take, ltb, ◌==◌, if◌then◌else◌,
}
use flash_store.Bytes.{Bytes}
use flash_store.Error.{Result, ok, err, wal_error, corruption}
use flash_store.External.{Buf, Crc32, Bincode}
use flash_store.Types.{Key, Value, Entry, is_tombstone}

pub record WalRecord : Type 0 where
  pub key : Key
  pub value : Value
  pub is_delete : Bool
  pub seq_no : ℕ

-- `From<&Entry>`
abbrev pub from_entry : Entry → WalRecord
from_entry e = record {
  key = e.key;
  value = e.value;
  is_delete = is_tombstone e.value_type;
  seq_no = e.seq_no;
}

module _ ⦃buf : Buf⦄ ⦃crc : Crc32⦄ ⦃codec : Bincode WalRecord⦄ where
  unfoldable pub encode : WalRecord → Bytes
  encode r =
      let payload = codec.serialize r in
      buf.put_u32_le (crc.hash payload) ++ (buf.put_u32_le (length payload % 2 ^ 32) ++ payload)

  -- The checks behind the header, on the bytes that follow it.
  unfoldable pub decode_payload : ℕ → ℕ → Bytes → Result WalRecord
  decode_payload checksum len d =
      if ltb (length d) len
      then err wal_error
      else if crc.hash (take len d) == checksum
      then elim (codec.deserialize (take len d)) [ none ↦ err wal_error | some r ↦ ok r ]
      else err corruption

  unfoldable pub decode : Bytes → Result WalRecord
  unfolding decode_payload
  decode d =
      if ltb (length d) 8
      then err wal_error
      else let (checksum, d1) = buf.get_u32_le d in
        let (len, d2) = buf.get_u32_le d1 in decode_payload checksum len d2
