-- ===== src/Engine.antt =====
-- src/engine.rs: the engine, used by one thread. Locks are gone, and operations on files succeed;
-- what can fail is reading a table.
pub mod Search
pub mod Flushing
pub mod Entries
pub mod Reads
pub mod Flush
pub mod Writes
pub mod Opening
pub mod Durable
pub mod Scan
pub mod Scanned
pub mod Compacting
pub mod Compacted
pub mod Layers
use flash_store.Prelude.{
  ℕ, zero, suc, ◌+◌, ◌%◌, ◌^◌, ◌-◌, Bool, true, false, not, ◌&&◌, List, [], ◌∷◌, ◌++◌, Option, none,
  some, length, ltb, leb, ◌==◌, if◌then◌else◌,
}
use mathlib.Core.List.{reverse}
use flash_store.Batch.{BatchOp, WriteBatch}
use flash_store.Bytes.{Bytes, key_lt, key_le}
use flash_store.BTreeMap.{values}
use flash_store.Config.{Options}
use flash_store.Disk.{File}
use flash_store.Error.{Result, ok, err, ◌>>=◌}
use flash_store.External.{Buf, Crc32, Bincode}
use flash_store.Manifest.{
  FileMetaData, VersionEdit, VersionSet, Levels, new_edit, add_file, take_file_number,
  next_sequence, log_edit, log_and_apply,
}
use flash_store.Memtable
use flash_store.Memtable.{MemTable}
use flash_store.Memtable.Skiplist.{SkipListIter, drain}
use Search.{search_version, search_memtables, flat}
use Flushing.{
  entries_of, last_key, max_seq, without_memtable, records_of, records_of_all, sort_by_seq,
  update_file,
}
use flash_store.Tables.{Tables}
use flash_store.Types.{Key, Value, Entry}
use flash_store.Wal
use flash_store.Wal.{WalWriter}
use flash_store.Wal.Record.{WalRecord, from_entry}

-- `EngineInner`, with the table files of its directory by their numbers.
pub record Engine (Table : Type 0) : Type 0 where
  pub options : Options
  pub memtable : MemTable
  pub imm_memtables : List MemTable
  pub wal : WalWriter
  pub manifest : File
  pub version_set : VersionSet
  pub memtable_id_seq : ℕ
  pub files : ℕ → Option Table

-- The records of a batch, with the sequence numbers from the one after `seq` on.
-- The sequence number after another.
abbrev pub next_seq : ℕ → ℕ
next_seq seq = (seq + 1) % 2 ^ 64

abbrev pub batch_records : ℕ → List BatchOp → List WalRecord
batch_records seq [] = []
batch_records seq (BatchOp.put k v ∷ ops) =
    record { key = k; value = v; is_delete = false; seq_no = next_seq seq }
    ∷ batch_records (next_seq seq) ops
batch_records seq (BatchOp.delete k ∷ ops) =
    record { key = k; value = []; is_delete = true; seq_no = next_seq seq }
    ∷ batch_records (next_seq seq) ops

abbrev pub apply_ops : MemTable → ℕ → List BatchOp → MemTable
apply_ops m seq [] = m
apply_ops m seq (BatchOp.put k v ∷ ops) =
    apply_ops (Memtable.put m k v (next_seq seq)) (next_seq seq) ops
apply_ops m seq (BatchOp.delete k ∷ ops) =
    apply_ops (Memtable.delete m k (next_seq seq)) (next_seq seq) ops

-- The edit that `flush` logs: the new file of level 0, its highest sequence number, the next file
-- number.
abbrev pub table_edit : ℕ → ℕ → Entry → List Entry → VersionEdit
table_edit file_num file_size e es =
    let seq = max_seq 0 (e ∷ es) in
    let meta : FileMetaData = record {
      file_number = file_num;
      file_size = file_size;
      smallest_key = e.key;
      largest_key = last_key e.key es;
    } in
    record (add_file new_edit 0 meta) {
      last_sequence = if ltb 0 seq then some seq else none;
      next_file_number = some ((file_num + 1) % 2 ^ 64);
    }

module _ {Table : Type 0} ⦃tables : Tables Table⦄ where
  -- Tables are read without the block cache; Sstable/Reader has the lookups through one.
  unfoldable pub get : Engine Table → Key → Result (Option Value)
  get s k = elim (Memtable.get s.memtable k) [
    | some res ↦ ok res
    | none ↦ elim (search_memtables k (reverse s.imm_memtables)) [
      | some res ↦ ok res
      | none ↦ elim (search_version s.files k s.version_set.levels) [
        | err e ↦ err e
        | ok res ↦ ok (flat res)
      ]
    ]
  ]

module _ {Table : Type 0} ⦃tables : Tables Table⦄ ⦃buf : Buf⦄ ⦃crc : Crc32⦄
    ⦃wal_codec : Bincode WalRecord⦄ ⦃edit_codec : Bincode VersionEdit⦄ where
  -- Writing the frozen memtable as a table of level 0, and logging and applying its edit.
  unfoldable pub write_table : Engine Table → List Entry → Engine Table
  write_table s [] = record s { version_set = (take_file_number s.version_set).0 }
  write_table s (e ∷ es) =
      let (vs, file_num) = take_file_number s.version_set in
      let (table, file_size) = tables.build (e ∷ es) in
      let edit = table_edit file_num file_size e es in
      record s {
        files = update_file s.files file_num table;
        manifest = log_edit s.manifest edit;
        version_set = log_and_apply vs edit;
      }

  -- The log is written anew from what is not flushed.
  unfoldable pub rewrite_wal : Engine Table → ℕ → Engine Table
  rewrite_wal s flushed_id =
      let imm = without_memtable flushed_id s.imm_memtables in
      let remaining = records_of_all imm ++ records_of (entries_of s.memtable) in
      record s {
        imm_memtables = imm;
        wal = Wal.append_batch (Wal.reset s.wal) (sort_by_seq remaining);
      }

  -- The active memtable joins the frozen ones, and an empty one takes its place.
  unfoldable pub freeze : Engine Table → Engine Table
  freeze s = record s {
    memtable = Memtable.new s.memtable_id_seq;
    memtable_id_seq = (s.memtable_id_seq + 1) % 2 ^ 64;
    imm_memtables = s.imm_memtables ++ s.memtable ∷ [];
  }

  unfoldable pub flush : Engine Table → Engine Table
  flush s =
      if (Memtable.approximate_size s.memtable == 0) && Memtable.is_empty s.memtable
      then s
      else rewrite_wal (write_table (freeze s) (entries_of s.memtable)) s.memtable.id

  unfoldable pub maybe_schedule_flush : Engine Table → Engine Table
  maybe_schedule_flush s =
      if leb s.options.memtable_size (Memtable.approximate_size s.memtable) then flush s else s

  unfoldable pub put : Engine Table → Key → Value → Engine Table
  put s k v =
      let (vs, seq) = next_sequence s.version_set in
      maybe_schedule_flush (record s {
        version_set = vs;
        wal = Wal.append s.wal (record { key = k; value = v; is_delete = false; seq_no = seq });
        memtable = Memtable.put s.memtable k v seq;
      })

  unfoldable pub delete : Engine Table → Key → Engine Table
  delete s k =
      let (vs, seq) = next_sequence s.version_set in
      maybe_schedule_flush (record s {
        version_set = vs;
        wal = Wal.append s.wal (record { key = k; value = []; is_delete = true; seq_no = seq });
        memtable = Memtable.delete s.memtable k seq;
      })

  unfoldable pub write_batch : Engine Table → WriteBatch → Engine Table
  write_batch s batch =
      let seq = s.version_set.last_sequence in
      if length batch.ops == 0
      then s
      else maybe_schedule_flush (record s {
        version_set = record s.version_set { last_sequence = (seq + length batch.ops) % 2 ^ 64 };
        wal = Wal.append_batch s.wal (batch_records seq batch.ops);
        memtable = apply_ops s.memtable seq batch.ops;
      })
