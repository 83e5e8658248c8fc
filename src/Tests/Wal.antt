-- ===== src/Tests/Wal.antt =====
-- The results on src/wal at concrete inputs.
use flash_store.Prelude.{
  ◌+◌, ◌≡◌, ◌<◌, ◌≢◌, inr, true, false, [], ◌∷◌, ◌++◌, List, take, length, arith,
}
use flash_store.Bytes.{Bytes}
use flash_store.Wal.{read_all, read_loop, encode_all, append_batch, open_writer}
use flash_store.Wal.Record.{WalRecord, encode}
use flash_store.Wal.Frames.{Fits, frame}
use flash_store.Wal.Recovery.{read_all_torn, read_all_bad_frame, read_loop_fuel}
use flash_store.Wal.Writes.{
  WalOp, one, batch, clear, logs_after, run, read_all-run, append_batch_after_torn,
}
use flash_store.Tests.Codecs.{wal_codec}
use flash_store.Tests.Instances.{buf, crc}
use flash_store.Tests.Types.{key_a, key_b}

abbrev first_record : WalRecord
first_record = record { key = key_a; value = key_b; is_delete = false; seq_no = 1 }

abbrev pub second_record : WalRecord
second_record = record { key = key_b; value = []; is_delete = true; seq_no = 2 }

first-Fits : Fits first_record
first-Fits = omega arith

pub second-Fits : Fits second_record
second-Fits = omega arith

pub second_length : 9 < length (encode second_record)
unfolding encode
second_length = omega arith

read_all_torn_example :
    read_all (encode_all (first_record ∷ []) ++ take 9 (encode second_record)) ≡ first_record ∷ []
read_all_torn_example =
    read_all_torn (first_record ∷ []) second_record 9 (first-Fits, tt) second-Fits second_length

read_all_bad_frame_example :
    read_all (encode_all (first_record ∷ []) ++ frame 5 1 (3 ∷ [])) ≡ first_record ∷ []
read_all_bad_frame_example =
    read_all_bad_frame (first_record ∷ []) 5 1 (3 ∷ []) (first-Fits, tt) (omega arith) (omega arith)
      (inr (omega arith))

abbrev zeros : Bytes
zeros = 0 ∷ 0 ∷ 0 ∷ 0 ∷ 1 ∷ 0 ∷ 0 ∷ 0 ∷ 0 ∷ 9 ∷ []

read_loop_fuel_example : read_loop (length zeros + 10) zeros 0 ≡ read_all zeros
read_loop_fuel_example = read_loop_fuel zeros 10

abbrev some_ops : List WalOp
some_ops = one first_record ∷ clear ∷ batch (second_record ∷ first_record ∷ []) ∷ []

read_all-run_example :
    (read_all (run (open_writer [] false) some_ops).file.content ≡ logs_after [] some_ops)
    × ((run (open_writer [] true) some_ops).file.durable
        ≡ (run (open_writer [] true) some_ops).file.content)
read_all-run_example =
    read_all-run false some_ops (first-Fits, (tt, ((second-Fits, (first-Fits, tt)), tt)))

torn_sum : crc.hash (take 3 ((1 ∷ 1 ∷ []) ++ encode_all (second_record ∷ []))) ≢ 0
unfolding encode
torn_sum = omega arith

append_batch_after_torn_example :
    read_all
      (append_batch
        (open_writer (encode_all (first_record ∷ []) ++ frame 0 3 (1 ∷ 1 ∷ [])) true)
        (second_record ∷ [])).file.content
    ≡ first_record ∷ []
append_batch_after_torn_example =
    append_batch_after_torn (first_record ∷ []) (second_record ∷ []) 0 3 (1 ∷ 1 ∷ []) true
      (first-Fits, tt) (omega arith) (omega arith) torn_sum
