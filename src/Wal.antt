-- ===== src/Wal.antt =====
-- src/wal/mod.rs: the writer and the reader of the write-ahead log.
pub mod Record
pub mod Frames
pub mod Tail
pub mod Recovery
pub mod Writes
use flash_store.Prelude.{
  ℕ, zero, suc, ◌+◌, ◌++◌, Bool, List, [], ◌∷◌, length, take, drop, ltb, leb, if◌then◌else◌,
}
use flash_store.Bytes.{Bytes}
use flash_store.Disk.{File, open_existing, seek_start, seek_end, write_all, truncate, sync_all}
use flash_store.Error.{Result, ok, err}
use flash_store.External.{Buf, Crc32, Bincode, from_le_bytes}
use Record.{WalRecord, encode, decode}

pub record WalWriter : Type 0 where
  pub file : File
  pub sync : Bool

-- `OpenOptions` with `create` and without `truncate`, then a seek to the end.
unfoldable pub open_writer : Bytes → Bool → WalWriter
open_writer content sync = record { file = seek_end (open_existing content); sync = sync }

abbrev pub sync_if : Bool → File → File
sync_if sync f = if sync then sync_all f else f

unfoldable pub reset : WalWriter → WalWriter
reset w = record w { file = sync_if w.sync (seek_start (truncate w.file)) }

module _ ⦃buf : Buf⦄ ⦃crc : Crc32⦄ ⦃codec : Bincode WalRecord⦄ where
  unfoldable pub append : WalWriter → WalRecord → WalWriter
  append w r = record w { file = sync_if w.sync (write_all w.file (encode r)) }

  -- `batch_buf` of `append_batch`
  abbrev pub encode_all : List WalRecord → Bytes
  encode_all [] = []
  encode_all (r ∷ rs) = encode r ++ encode_all rs

  unfoldable pub append_batch : WalWriter → List WalRecord → WalWriter
  append_batch w [] = w
  append_batch w (r ∷ rs) = record w {
    file = sync_if w.sync (write_all w.file (encode_all (r ∷ rs)));
  }

  -- The `while` loop of `read_all`, with fuel.
  unfoldable pub read_loop : ℕ → Bytes → ℕ → List WalRecord
  read_loop zero b offset = []
  read_loop (suc fuel) b offset =
      let record_len = 8 + from_le_bytes (take 4 (drop (offset + 4) b)) in
      let rest = read_loop fuel b (offset + record_len) in
      if leb (offset + 8) (length b)
      then (if ltb (length b) (offset + record_len)
          then []
          else elim (decode (take record_len (drop offset b))) [ ok r ↦ r ∷ rest | err e ↦ [] ])
      else []

  -- Each round passes at least eight bytes.
  unfoldable pub read_all : Bytes → List WalRecord
  read_all b = read_loop (length b) b 0
