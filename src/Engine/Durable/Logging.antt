-- ===== src/Engine/Durable/Logging.antt =====
-- The writes of src/engine.rs keep the directory a true description of the state.
use flash_store.Prelude.{
  ℕ, ◌+◌, ◌^◌, ◌<◌, ◌≤◌, ◌≡◌, refl, ap, sym, ◌∙◌, Bool, true, false, List, [], ◌∷◌, ◌++◌, length,
  arith, if_keeps, ltb, if◌then◌else◌, Bool-cases, inl, inr,
}
use flash_store.Batch.{BatchOp}
use flash_store.External.{Buf, Crc32, Bincode}
use flash_store.Manifest.{VersionEdit}
use flash_store.Memtable
use flash_store.Memtable.{MemTable}
use flash_store.Tables.{Tables}
use flash_store.Wal.{WalWriter}
use flash_store.Wal.Record.{WalRecord}
use flash_store.Wal.Writes.{Holds}
use flash_store.Engine.{Engine, flush, maybe_schedule_flush, apply_ops, next_seq, batch_records}
use flash_store.Engine.Flush.{IsValid}
use flash_store.Engine.Flushing.{entries_of}
use flash_store.Engine.Opening.{replay, replay_record}
use flash_store.Engine.Writes.{written}
use flash_store.Engine.Durable.{Persisted, described, SeqUpTo, EditFits}
use flash_store.Engine.Durable.Flushed.{flush-Persisted, same-Manifested}
use flash_store.Engine.Durable.Reopened.{SeqUpTo-mono, SeqUpTo-write}

replay-append :
    (last : ℕ) (m : MemTable) (a b : List WalRecord)
    → replay last m (a ++ b) ≡ replay last (replay last m a) b
unfolding replay
replay-append last m [] b = refl
replay-append last m (r ∷ a) b =
    replay-append last (if ltb last r.seq_no then replay_record m r else m) a b

same_record :
    (m n : MemTable) (r : WalRecord)
    → m.table ≡ n.table
    → (replay_record m r).table ≡ (replay_record n r).table
unfolding Memtable.put Memtable.delete
same_record m n r h = elim (Bool-cases r.is_delete) [
  | inl e ↦ rw e (rw h refl)
  | inr e ↦ rw e (rw h refl)
]

same_choice :
    (b : Bool) (x m y n : MemTable)
    → x.table ≡ y.table
    → m.table ≡ n.table
    → (if b then x else m).table ≡ (if b then y else n).table
same_choice true x m y n h k = h
same_choice false x m y n h k = k

same_replay :
    (last : ℕ) (m n : MemTable) (rs : List WalRecord)
    → m.table ≡ n.table
    → (replay last m rs).table ≡ (replay last n rs).table
unfolding replay
same_replay last m n [] h = h
same_replay last m n (r ∷ rs) h =
    let b = ltb last r.seq_no in
    same_replay last (if b then replay_record m r else m) (if b then replay_record n r else n) rs
      (same_choice b _ m _ n (same_record m n r h) h)

-- A batch changes the memtable as the replay of its records does.
pub apply_ops-replay :
    (last : ℕ) (m : MemTable) (seq : ℕ) (ops : List BatchOp)
    → last ≤ seq
    → seq + length ops < 2 ^ 64
    → apply_ops m seq ops ≡ replay last m (batch_records seq ops)
unfolding replay
apply_ops-replay last m seq [] h small = refl
apply_ops-replay last m seq (BatchOp.put k v ∷ ops) h small =
    let later : ltb last (next_seq seq) ≡ true = ground arith in
    let n = Memtable.put m k v (next_seq seq) in
    apply_ops-replay last n (next_seq seq) ops (omega arith) (omega arith)
    ∙ ap (λ b. replay last (if b then n else m) (batch_records (next_seq seq) ops)) (sym later)
apply_ops-replay last m seq (BatchOp.delete k ∷ ops) h small =
    let later : ltb last (next_seq seq) ≡ true = ground arith in
    let n = Memtable.delete m k (next_seq seq) in
    apply_ops-replay last n (next_seq seq) ops (omega arith) (omega arith)
    ∙ ap (λ b. replay last (if b then n else m) (batch_records (next_seq seq) ops)) (sym later)

pub SeqUpTo-apply_ops :
    (m : MemTable) (seq : ℕ) (ops : List BatchOp)
    → seq + length ops < 2 ^ 64
    → SeqUpTo seq m.table.map
    → SeqUpTo (seq + length ops) (apply_ops m seq ops).table.map
SeqUpTo-apply_ops m seq [] small h = SeqUpTo-mono seq (seq + 0) m.table.map (omega arith) h
SeqUpTo-apply_ops m seq (BatchOp.put k v ∷ ops) small h =
    let n = Memtable.put m k v (next_seq seq) in
    let w =
      SeqUpTo-write (next_seq seq) m k v (next_seq seq) (omega arith)
        (SeqUpTo-mono seq (next_seq seq) m.table.map (omega arith) h) in
    SeqUpTo-mono (next_seq seq + length ops) _ (apply_ops n (next_seq seq) ops).table.map
      (omega arith) (SeqUpTo-apply_ops n (next_seq seq) ops (omega arith) w.0)
SeqUpTo-apply_ops m seq (BatchOp.delete k ∷ ops) small h =
    let n = Memtable.delete m k (next_seq seq) in
    let w =
      SeqUpTo-write (next_seq seq) m k [] (next_seq seq) (omega arith)
        (SeqUpTo-mono seq (next_seq seq) m.table.map (omega arith) h) in
    SeqUpTo-mono (next_seq seq + length ops) _ (apply_ops n (next_seq seq) ops).table.map
      (omega arith) (SeqUpTo-apply_ops n (next_seq seq) ops (omega arith) w.1)

module _ {Table : Type 0} ⦃tables : Tables Table⦄ ⦃buf : Buf⦄ ⦃crc : Crc32⦄
    ⦃wal_codec : Bincode WalRecord⦄ ⦃edit_codec : Bincode VersionEdit⦄ where
  -- Records that are logged and that change the memtable as their replay does.
  pub written-Persisted :
      (s : Engine Table) (w : WalWriter) (m : MemTable) (n : ℕ) (rs : List WalRecord)
      → s.version_set.last_sequence ≤ n
      → w.sync ≡ s.wal.sync
      → SeqUpTo n m.table.map
      → (p : Persisted s) → Holds (p.records ++ rs) w
      → m.table ≡ (replay (described s p.edits).last_sequence s.memtable rs).table
      → Persisted (written s w m n)
  written-Persisted s w m n rs le sync up p holds h =
      let last = (described s p.edits).last_sequence in
      record {
        edits = p.edits;
        manifest = same-Manifested s (written s w m n) p.edits refl refl refl refl le p.manifest;
        records = p.records ++ rs;
        log = record {
          holds = holds;
          sync = sync ∙ p.log.sync;
          memtable =
              h
              ∙ same_replay last s.memtable _ rs p.log.memtable
              ∙ ap (λ x. x.table) (sym (replay-append last (Memtable.new 0) p.records rs));
          bounded = up;
        };
      }

  pub maybe-Persisted :
      (s : Engine Table)
      → IsValid s
      → EditFits s (entries_of s.memtable)
      → Persisted s
      → Persisted (maybe_schedule_flush s)
  unfolding maybe_schedule_flush
  maybe-Persisted s v fit p = if_keeps Persisted _ (flush s) s (flush-Persisted s v fit p) p
