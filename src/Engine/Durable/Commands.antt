-- ===== src/Engine/Durable/Commands.antt =====
-- The commands of a run of the engine of src/engine.rs, and the map that they change.
use flash_store.Prelude.{
  ℕ, ◌+◌, ◌%◌, ◌^◌, ◌<◌, ◌≡◌, Bool, true, false, List, [], ◌∷◌, length, Option, none, some, All,
  if◌then◌else◌,
}
use flash_store.Batch.{BatchOp, WriteBatch}
use flash_store.Bytes.{key_eq}
use flash_store.Error.{Result, ok, ◌>>=◌}
use flash_store.External.{Buf, Crc32, Bincode}
use flash_store.Manifest.{VersionEdit}
use flash_store.Memtable
use flash_store.Tables.{Tables}
use flash_store.Types.{Key, Value}
use flash_store.Wal
use flash_store.Wal.Frames
use flash_store.Wal.Record.{WalRecord}
use flash_store.Engine
use flash_store.Engine.{
  Engine, get, flush, write_batch, maybe_schedule_flush, apply_ops, batch_records, next_seq,
}
use flash_store.Engine.Opening.{recovered}
use flash_store.Engine.Writes.{written, last_op}
use flash_store.Engine.Durable.{FlushFits}
use flash_store.Engine.Durable.Reopened.{reopened}
use flash_store.Engine.Compacted.{IfOk}
use flash_store.Engine.Compacting.{compact}
use flash_store.Engine.Layers.Durable.{CompactFits}

-- What happens to a store: its calls, a restart of the process, and a loss of power.
pub data Command : Type 0 where
  put : Key → Value → Command
  delete : Key → Command
  write : WriteBatch → Command
  flush_now : Command
  compact_now : Command
  restart : Command
  lose_power : Command

-- The map that a store stands for, after a command.
abbrev pub update : (Key → Option Value) → Command → Key → Option Value
update f (put k v) j = if key_eq j k then some v else f j
update f (delete k) j = if key_eq j k then none else f j
update f (write batch) j = elim (last_op j batch.ops) [ none ↦ f j | some res ↦ res ]
update f flush_now j = f j
update f compact_now j = f j
update f restart j = f j
update f lose_power j = f j

abbrev pub updates : (Key → Option Value) → List Command → Key → Option Value
updates f [] = f
updates f (c ∷ cs) = updates (update f c) cs

module _ {Table : Type 0} ⦃tables : Tables Table⦄ ⦃buf : Buf⦄ ⦃crc : Crc32⦄
    ⦃wal_codec : Bincode WalRecord⦄ ⦃edit_codec : Bincode VersionEdit⦄ where
  -- A loss of power leaves what `sync_all` made durable.
  abbrev pub after_power_loss : Engine Table → Engine Table
  after_power_loss s = recovered Table s.options (record {
    exists = true;
    manifest = some s.manifest.durable;
    wal = some s.wal.file.durable;
    files = s.files;
  })

  -- A compaction can fail, where a table cannot be read.
  abbrev pub step : Engine Table → Command → Result (Engine Table)
  step s (put k v) = ok (Engine.put s k v)
  step s (delete k) = ok (Engine.delete s k)
  step s (write batch) = ok (write_batch s batch)
  step s flush_now = ok (flush s)
  step s compact_now = compact s
  step s restart = ok (reopened s s.wal.file.content)
  step s lose_power = ok (after_power_loss s)

  abbrev pub run : Engine Table → List Command → Result (Engine Table)
  run s [] = ok s
  run s (c ∷ cs) = step s c >>= (λ t. run t cs)

  abbrev pub record_of : Engine Table → Key → Value → Bool → WalRecord
  record_of s k v is_delete = record {
    key = k;
    value = v;
    is_delete = is_delete;
    seq_no = next_seq s.version_set.last_sequence;
  }

  -- The states between the write and the flush that it may start.
  abbrev pub after_put : Engine Table → Key → Value → Engine Table
  after_put s k v =
      let n = next_seq s.version_set.last_sequence in
      written s (Wal.append s.wal (record_of s k v false)) (Memtable.put s.memtable k v n) n

  abbrev pub after_delete : Engine Table → Key → Engine Table
  after_delete s k =
      let n = next_seq s.version_set.last_sequence in
      written s (Wal.append s.wal (record_of s k [] true)) (Memtable.delete s.memtable k n) n

  abbrev pub after_write : Engine Table → List BatchOp → Engine Table
  after_write s ops =
      let n = s.version_set.last_sequence in
      written s (Wal.append_batch s.wal (batch_records n ops)) (apply_ops s.memtable n ops)
        ((n + length ops) % 2 ^ 64)

  -- So many sequence numbers can be taken without wrapping around.
  abbrev pub HasSequences : Engine Table → ℕ → Type 0
  HasSequences s n = s.version_set.last_sequence + n < 2 ^ 64

  -- What a command needs: sequence numbers that are left, records and edits below 4 GiB, and tables
  -- that can be written, with a file number that is left; for a loss of power, a log that is synced
  -- at each write.
  abbrev pub StepFits : Engine Table → Command → Type 0
  StepFits s (put k v) =
      (HasSequences s 1 × Wal.Frames.Fits (record_of s k v false)) × FlushFits (after_put s k v)
  StepFits s (delete k) =
      (HasSequences s 1 × Wal.Frames.Fits (record_of s k [] true)) × FlushFits (after_delete s k)
  StepFits s (write batch) =
      (HasSequences s (length batch.ops)
        × All Wal.Frames.Fits (batch_records s.version_set.last_sequence batch.ops))
      × FlushFits (after_write s batch.ops)
  StepFits s flush_now = FlushFits s
  StepFits s compact_now = CompactFits s
  StepFits s restart = Unit
  StepFits s lose_power = s.options.sync_wal ≡ true

  abbrev pub RunFits : Engine Table → List Command → Type 0
  RunFits s [] = Unit
  RunFits s (c ∷ cs) = StepFits s c × IfOk (λ t. RunFits t cs) (step s c)
