-- ===== src/Engine/Durable/Run.antt =====
-- Whole runs of the engine of src/engine.rs, restarts included, against a map from keys to values.
use flash_store.Prelude.{
  ◌^◌, ◌%◌, ◌+◌, ◌≡◌, refl, ap, ap₂, ◌∙◌, Bool, true, false, List, [], ◌∷◌, length, Option, none,
  some, ◌==◌, arith, if_keeps, if◌then◌else◌, subst, All,
}
use flash_store.Batch.{BatchOp, WriteBatch}
use flash_store.Bytes.{key_eq}
use flash_store.Error.{ok, ◌>>=◌}
use flash_store.External.{Buf, Crc32, Bincode}
use flash_store.Manifest.{VersionEdit}
use flash_store.Memtable
use flash_store.Memtable.Size.{write-IsValid}
use flash_store.Tables.{Tables}
use flash_store.Types.{Key, Value}
use flash_store.Wal
use flash_store.Wal.Record.{WalRecord}
use flash_store.Wal.Writes.{append-Holds, append_batch-Holds, append_sync, append_batch_sync}
use flash_store.Engine
use flash_store.Engine.{
  Engine, get, flush, write_batch, maybe_schedule_flush, apply_ops, batch_records, next_seq,
}
use flash_store.Engine.Flush.{IsValid, flush-get, flush-IsValid}
use flash_store.Engine.Opening.{recovered}
use flash_store.Engine.Writes.{
  written-IsValid, put-get, delete-get, write_batch-get, last_op, after_batch, apply_ops-IsValid,
}
use flash_store.Engine.Durable.{SeqUpTo, Persisted, FlushFits}
use flash_store.Engine.Durable.Flushed.{flush-Persisted}
use flash_store.Engine.Durable.Reopened.{
  reopened, reopened-Persisted, get-reopened_whole, SeqUpTo-mono, SeqUpTo-write,
}
use flash_store.Engine.Durable.Logging.{
  written-Persisted, maybe-Persisted, apply_ops-replay, SeqUpTo-apply_ops,
}
use flash_store.Engine.Durable.Commands.{
  Command, put, delete, write, flush_now, restart, lose_power, compact_now, update, updates,
  after_power_loss, step, run, record_of, HasSequences, after_put, after_delete, after_write,
  StepFits, RunFits,
}
use flash_store.Engine.Compacted.{IfOk}
use flash_store.Engine.Layers.Durable.{compact-durable}
use flash_store.Engine.Layers.Reopened.{reopened-InOrder}
use flash_store.Engine.Layers.Steps.{
  InOrder, written-InOrder, write-Extends, apply_ops-Extends, flush-InOrder, maybe-InOrder,
}
use flash_store.Wal.Frames

of_answer :
    (o : Option (Option Value)) (old : Option Value)
    → after_batch o (ok old) ≡ ok (elim o [ none ↦ old | some res ↦ res ])
of_answer none old = refl
of_answer (some res) old = refl

of_test :
    (b : Bool) (res old : Option Value)
    → (if b then ok res else ok old) ≡ ok (if b then res else old)
of_test true res old = refl
of_test false res old = refl

module _ {Table : Type 0} ⦃tables : Tables Table⦄ ⦃buf : Buf⦄ ⦃crc : Crc32⦄
    ⦃wal_codec : Bincode WalRecord⦄ ⦃edit_codec : Bincode VersionEdit⦄ where
  -- With a log that is synced, a loss of power leaves what a restart finds.
  power_loss-eq-restart :
      (s : Engine Table)
      → s.options.sync_wal ≡ true
      → Persisted s
      → after_power_loss s ≡ reopened s s.wal.file.content
  power_loss-eq-restart s sync p =
      ap₂
        (λ manifest log.
          recovered Table s.options
            (record { exists = true; manifest = some manifest; wal = some log; files = s.files }))
        p.manifest.durable (p.log.holds.synced (p.log.sync ∙ sync))

  -- The states between a write and its flush.
  after_put-Persisted :
      (s : Engine Table) (k : Key) (v : Value)
      → Persisted s
      → HasSequences s 1
      → Wal.Frames.Fits (record_of s k v false)
      → Persisted (after_put s k v)
  after_put-Persisted s k v p left record_fits =
      let n = next_seq s.version_set.last_sequence in
      let r = record_of s k v false in
      written-Persisted s (Wal.append s.wal r) (Memtable.put s.memtable k v n) n (r ∷ [])
        (omega arith) (append_sync s.wal r)
        (SeqUpTo-write n s.memtable k v n (omega arith)
          (SeqUpTo-mono _ n s.memtable.table.map (omega arith) p.log.bounded)).0
        p (append-Holds p.records s.wal r record_fits p.log.holds)
        (ap (λ m. m.table)
          (apply_ops-replay _ s.memtable _ (BatchOp.put k v ∷ []) p.manifest.last left))

  after_delete-Persisted :
      (s : Engine Table) (k : Key)
      → Persisted s
      → HasSequences s 1
      → Wal.Frames.Fits (record_of s k [] true)
      → Persisted (after_delete s k)
  after_delete-Persisted s k p left record_fits =
      let n = next_seq s.version_set.last_sequence in
      let r = record_of s k [] true in
      written-Persisted s (Wal.append s.wal r) (Memtable.delete s.memtable k n) n (r ∷ [])
        (omega arith) (append_sync s.wal r)
        (SeqUpTo-write n s.memtable k [] n (omega arith)
          (SeqUpTo-mono _ n s.memtable.table.map (omega arith) p.log.bounded)).1
        p (append-Holds p.records s.wal r record_fits p.log.holds)
        (ap (λ m. m.table)
          (apply_ops-replay _ s.memtable _ (BatchOp.delete k ∷ []) p.manifest.last left))

  after_write-Persisted :
      (s : Engine Table) (ops : List BatchOp)
      → Persisted s
      → HasSequences s (length ops)
      → All Wal.Frames.Fits (batch_records s.version_set.last_sequence ops)
      → Persisted (after_write s ops)
  after_write-Persisted s ops p left records_fit =
      let n = s.version_set.last_sequence in
      let rs = batch_records n ops in
      let last : n + length ops ≡ (n + length ops) % 2 ^ 64 = omega (arith, left) in
      written-Persisted s (Wal.append_batch s.wal rs) (apply_ops s.memtable n ops)
        ((n + length ops) % 2 ^ 64) rs (omega arith) (append_batch_sync s.wal rs)
        (subst (λ m. SeqUpTo m (apply_ops s.memtable n ops).table.map) last
          (SeqUpTo-apply_ops s.memtable n ops left p.log.bounded))
        p (append_batch-Holds p.records s.wal rs records_fit p.log.holds)
        (ap (λ m. m.table) (apply_ops-replay _ s.memtable n ops p.manifest.last left))

  -- A write that may start a flush, from the state between.
  maybe-keeps :
      (t : Engine Table)
      → IsValid t
      → Persisted t
      → InOrder t
      → FlushFits t
      → Persisted (maybe_schedule_flush t) × InOrder (maybe_schedule_flush t)
  maybe-keeps t v p o fit = (maybe-Persisted t v fit.1 p, maybe-InOrder t v p fit o)

  put-keeps :
      (s : Engine Table) (k : Key) (v : Value)
      → IsValid s
      → Persisted s
      → InOrder s
      → StepFits s (put k v)
      → Persisted (Engine.put s k v) × InOrder (Engine.put s k v)
  unfolding Engine.put
  put-keeps s k v valid p o ((left, record_fits), flush_fits) =
      let n = next_seq s.version_set.last_sequence in
      maybe-keeps (after_put s k v)
        (written-IsValid s _ _ n valid (write-IsValid s.memtable k v n valid.memtable).0)
        (after_put-Persisted s k v p left record_fits)
        (written-InOrder s _ _ n (omega arith) (write-Extends _ s.memtable k v n (omega arith)).0 o)
        flush_fits

  delete-keeps :
      (s : Engine Table) (k : Key)
      → IsValid s
      → Persisted s
      → InOrder s
      → StepFits s (delete k)
      → Persisted (Engine.delete s k) × InOrder (Engine.delete s k)
  unfolding Engine.delete
  delete-keeps s k valid p o ((left, record_fits), flush_fits) =
      let n = next_seq s.version_set.last_sequence in
      maybe-keeps (after_delete s k)
        (written-IsValid s _ _ n valid (write-IsValid s.memtable k [] n valid.memtable).1)
        (after_delete-Persisted s k p left record_fits)
        (written-InOrder s _ _ n (omega arith) (write-Extends _ s.memtable k [] n (omega arith)).1
          o)
        flush_fits

  write_batch-keeps :
      (s : Engine Table) (batch : WriteBatch)
      → IsValid s
      → Persisted s
      → InOrder s
      → StepFits s (write batch)
      → Persisted (write_batch s batch) × InOrder (write_batch s batch)
  unfolding write_batch
  write_batch-keeps s batch valid p o ((left, records_fit), flush_fits) =
      let n = s.version_set.last_sequence in
      if_keeps (λ x. Persisted x × InOrder x) (length batch.ops == 0) s _ (p, o)
        (maybe-keeps (after_write s batch.ops)
          (written-IsValid s _ _ _ valid (apply_ops-IsValid s.memtable n batch.ops valid.memtable))
          (after_write-Persisted s batch.ops p left records_fit)
          (written-InOrder s _ _ ((n + length batch.ops) % 2 ^ 64) (omega (arith, left))
            (apply_ops-Extends n s.memtable n batch.ops (omega arith) left) o)
          flush_fits)

  -- A command that fits succeeds, keeps a well-formed state, its description on disk and the order
  -- of its tables, and changes reads as it changes the map.
  step-keeps :
      (s : Engine Table) (f : Key → Option Value) (c : Command)
      → IsValid s
      → Persisted s
      → InOrder s
      → ((j : Key) → get s j ≡ ok (f j))
      → StepFits s c
      → (t : Engine Table) × ((step s c ≡ ok t)
          × IsValid t
          × Persisted t
          × InOrder t
          × ((j : Key) → get t j ≡ ok (update f c j)))
  step-keeps s f (put k x) v p o h fit = (
    Engine.put s k x,
    (
      refl,
      (put-get s k x k v fit.1.1.0 fit.1.0).1,
      (put-keeps s k x v p o fit).0,
      (put-keeps s k x v p o fit).1,
      λ j.
          (put-get s k x j v fit.1.1.0 fit.1.0).0
          ∙ ap (λ o. if key_eq j k then ok (some x) else o) (h j)
          ∙ of_test (key_eq j k) (some x) (f j),
    ),
  )
  step-keeps s f (delete k) v p o h fit = (
    Engine.delete s k,
    (
      refl,
      (delete-get s k k v fit.1.1.0 fit.1.0).1,
      (delete-keeps s k v p o fit).0,
      (delete-keeps s k v p o fit).1,
      λ j.
          (delete-get s k j v fit.1.1.0 fit.1.0).0
          ∙ ap (λ o. if key_eq j k then ok none else o) (h j)
          ∙ of_test (key_eq j k) none (f j),
    ),
  )
  step-keeps s f (write batch) v p o h fit = (
    write_batch s batch,
    (
      refl,
      (write_batch-get s batch [] v fit.1.1.0 fit.1.0).1,
      (write_batch-keeps s batch v p o fit).0,
      (write_batch-keeps s batch v p o fit).1,
      λ j.
          (write_batch-get s batch j v fit.1.1.0 fit.1.0).0
          ∙ ap (after_batch (last_op j batch.ops)) (h j)
          ∙ of_answer (last_op j batch.ops) (f j),
    ),
  )
  step-keeps s f flush_now v p o h fit = (
    flush s,
    (
      refl,
      flush-IsValid s fit.1.0 v,
      flush-Persisted s v fit.1 p,
      flush-InOrder s v p fit o,
      λ j. flush-get s j v fit.0 ∙ h j,
    ),
  )
  step-keeps s f compact_now v p o h fit =
      let (t, (run, (same, v', p', o'))) = compact-durable s v p o fit in
      (t, (run, v', p', o', λ j. same j ∙ h j))
  step-keeps s f restart v p o h fit =
      let (valid, kept) = reopened-Persisted s v p in
      (
        reopened s s.wal.file.content,
        (refl, valid, kept, reopened-InOrder s p o, λ j. get-reopened_whole s j v p ∙ h j),
      )
  step-keeps s f lose_power v p o h fit =
      let (valid, kept) = reopened-Persisted s v p in
      (
        reopened s s.wal.file.content,
        (
          ap ok (power_loss-eq-restart s fit p),
          valid,
          kept,
          reopened-InOrder s p o,
          λ j. get-reopened_whole s j v p ∙ h j,
        ),
      )

  -- From a well-formed state that its directory describes, with its tables in order, and whose
  -- reads are those of a map: any run of puts, deletes, batches, flushes, compactions, restarts
  -- and losses of power succeeds, if its records, edits and tables fit their formats, no sequence
  -- or file number reaches 2^64, and the log is synced at a loss of power. After it every read
  -- succeeds with the answer of the map after the same commands, and the state is again
  -- well-formed, described by its directory and in order.
  pub run-get :
      (s : Engine Table) (f : Key → Option Value) (cs : List Command)
      → IsValid s
      → Persisted s
      → InOrder s
      → ((j : Key) → get s j ≡ ok (f j))
      → RunFits s cs
      → (t : Engine Table) × ((run s cs ≡ ok t)
          × IsValid t
          × Persisted t
          × InOrder t
          × ((j : Key) → get t j ≡ ok (updates f cs j)))
  run-get s f [] v p o h fit = (s, (refl, v, p, o, h))
  run-get s f (c ∷ cs) v p o h (fits, later) =
      let (t, (one, valid, kept, order, read)) = step-keeps s f c v p o h fits in
      let (u, (rest, v', p', o', reads)) =
        run-get t (update f c) cs valid kept order read
          (subst (IfOk (λ x. RunFits x cs)) one later) in
      (u, (ap (λ r. r >>= (λ x. run x cs)) one ∙ rest, v', p', o', reads))
