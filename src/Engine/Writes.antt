-- ===== src/Engine/Writes.antt =====
-- `put`, `delete`, `write_batch` of src/engine.rs and the reads after them.
use flash_store.Prelude.{
  ℕ, ◌+◌, ◌%◌, ◌^◌, ◌≡◌, refl, sym, ◌∙◌, Bool, true, false, List, [], ◌∷◌, length, ◌==◌, Option,
  none, some, if◌then◌else◌, arith, Bool-cases, inl, inr, if_keeps,
}
use flash_store.Batch.{BatchOp, WriteBatch}
use flash_store.Bytes.{key_eq}
use flash_store.Error.{Result, ok}
use flash_store.External.{Buf, Crc32, Bincode}
use flash_store.Manifest.{VersionEdit}
use flash_store.Manifest.Versions.{HasNumber}
use flash_store.Memtable
use flash_store.Memtable.{MemTable}
use flash_store.Memtable.Laws.{get-write}
use flash_store.Memtable.Size.{write-IsValid}
use flash_store.Tables.{Tables}
use flash_store.Types.{Key, Value}
use flash_store.Wal.{WalWriter}
use flash_store.Wal.Record.{WalRecord}
use flash_store.Engine.{
  Engine, get, flush, put, delete, write_batch, maybe_schedule_flush, apply_ops, next_seq,
}
use flash_store.Engine.Search.{or_else}
use flash_store.Engine.Flushing.{entries_of}
use flash_store.Engine.Flush.{IsValid, get-parts, flush-get, flush-IsValid}

-- The answer of the last operation of a batch on a key.
abbrev pub last_op : Key → List BatchOp → Option (Option Value)
last_op j [] = none
last_op j (BatchOp.put k v ∷ ops) = elim (last_op j ops) [
  | some res ↦ some res
  | none ↦ if key_eq j k then some (some v) else none
]
last_op j (BatchOp.delete k ∷ ops) = elim (last_op j ops) [
  | some res ↦ some res
  | none ↦ if key_eq j k then some none else none
]

abbrev pub or_keep : Option (Option Value) → Option (Option Value) → Option (Option Value)
or_keep none old = old
or_keep (some res) old = some res

abbrev pub after_batch : Option (Option Value) → Result (Option Value) → Result (Option Value)
after_batch none old = old
after_batch (some res) old = ok res

if_ok :
    (b : Bool) (res : Option Value) (old : Result (Option Value))
    → after_batch (if b then some res else none) old ≡ (if b then ok res else old)
if_ok true res old = refl
if_ok false res old = refl

get-apply_ops :
    (m : MemTable) (seq : ℕ) (ops : List BatchOp) (j : Key)
    → Memtable.get (apply_ops m seq ops) j ≡ or_keep (last_op j ops) (Memtable.get m j)
get-apply_ops m seq [] j = refl
get-apply_ops m seq (BatchOp.put k v ∷ ops) j = ground (
  arith,
  get-apply_ops (Memtable.put m k v (next_seq seq)) (next_seq seq) ops j,
  (get-write m k v (next_seq seq) j).0,
)
get-apply_ops m seq (BatchOp.delete k ∷ ops) j = ground (
  arith,
  get-apply_ops (Memtable.delete m k (next_seq seq)) (next_seq seq) ops j,
  (get-write m k [] (next_seq seq) j).1,
)

last_op-empty : (j : Key) (ops : List BatchOp) → (length ops == 0) ≡ true → last_op j ops ≡ none
last_op-empty j [] h = refl
last_op-empty j (op ∷ ops) h = ground (arith, h)

pub apply_ops-IsValid :
    (m : MemTable) (seq : ℕ) (ops : List BatchOp)
    → Memtable.Size.IsValid m
    → Memtable.Size.IsValid (apply_ops m seq ops)
apply_ops-IsValid m seq [] v = v
apply_ops-IsValid m seq (BatchOp.put k x ∷ ops) v =
    apply_ops-IsValid (Memtable.put m k x (next_seq seq)) (next_seq seq) ops
      (write-IsValid m k x (next_seq seq) v).0
apply_ops-IsValid m seq (BatchOp.delete k ∷ ops) v =
    apply_ops-IsValid (Memtable.delete m k (next_seq seq)) (next_seq seq) ops
      (write-IsValid m k [] (next_seq seq) v).1

module _ {Table : Type 0} ⦃tables : Tables Table⦄ ⦃buf : Buf⦄ ⦃crc : Crc32⦄
    ⦃wal_codec : Bincode WalRecord⦄ ⦃edit_codec : Bincode VersionEdit⦄ where
  maybe-get :
      (s : Engine Table) (k : Key)
      → IsValid s
      → tables.fits (entries_of s.memtable) ≡ true
      → get (maybe_schedule_flush s) k ≡ get s k
  unfolding maybe_schedule_flush
  maybe-get s k v fit = ground (arith, flush-get s k v fit)

  maybe-IsValid :
      (s : Engine Table) → HasNumber s.version_set → IsValid s → IsValid (maybe_schedule_flush s)
  unfolding maybe_schedule_flush
  maybe-IsValid s room v = if_keeps IsValid _ (flush s) s (flush-IsValid s room v) v

  -- A write that changes only the memtable answers at once, or leaves the old answer.
  after_write :
      (s t : Engine Table) (j : Key) (answer : Option (Option Value))
      → IsValid s
      → t.imm_memtables ≡ s.imm_memtables
      → t.files ≡ s.files
      → t.version_set.levels ≡ s.version_set.levels
      → Memtable.get t.memtable j ≡ or_keep answer (Memtable.get s.memtable j)
      → get t j ≡ after_batch answer (get s j)
  unfolding or_else
  after_write s t j none v imm files levels m =
      get-parts t j (imm ∙ v.none_frozen)
      ∙ rw m (rw files (rw levels refl))
      ∙ sym (get-parts s j v.none_frozen)
  after_write s t j (some res) v imm files levels m =
      get-parts t j (imm ∙ v.none_frozen) ∙ rw m refl

  -- The state after the log, the memtable and the last sequence number have changed.
  abbrev pub written : Engine Table → WalWriter → MemTable → ℕ → Engine Table
  written s w m n = record s {
    version_set = record s.version_set { last_sequence = n };
    wal = w;
    memtable = m;
  }

  pub written-IsValid :
      (s : Engine Table) (w : WalWriter) (m : MemTable) (n : ℕ)
      → IsValid s
      → Memtable.Size.IsValid m
      → IsValid (written s w m n)
  written-IsValid s w m n v valid = record {
    memtable = valid;
    none_frozen = v.none_frozen;
    versions = record {
      count = v.versions.count;
      numbers = v.versions.numbers;
      ordered = v.versions.ordered;
    };
    has_level = v.has_level;
  }

  written-get :
      (s : Engine Table) (w : WalWriter) (m : MemTable) (n : ℕ) (j : Key)
      (answer : Option (Option Value))
      → IsValid s
      → HasNumber s.version_set
      → Memtable.Size.IsValid m
      → tables.fits (entries_of m) ≡ true
      → Memtable.get m j ≡ or_keep answer (Memtable.get s.memtable j)
      → (get (maybe_schedule_flush (written s w m n)) j ≡ after_batch answer (get s j))
        × IsValid (maybe_schedule_flush (written s w m n))
  written-get s w m n j answer v room valid fit h =
      let t = written s w m n in
      let tv = written-IsValid s w m n v valid in
      (maybe-get t j tv fit ∙ after_write s t j answer v refl refl refl h, maybe-IsValid t room tv)

  -- From a well-formed state whose next file number is below 2^64 - 1, if the entries of the
  -- memtable with the new one fit a table: a read after `put` sees the new value at its key and
  -- the old answer at any other key, whether or not the write starts a flush; and the state stays
  -- well-formed.
  pub put-get :
      (s : Engine Table) (k : Key) (x : Value) (j : Key)
      → IsValid s
      → HasNumber s.version_set
      → tables.fits
          (entries_of (Memtable.put s.memtable k x (next_seq s.version_set.last_sequence)))
        ≡ true
      → (get (put s k x) j ≡ (if key_eq j k then ok (some x) else get s j)) × IsValid (put s k x)
  unfolding put
  put-get s k x j v room fit =
      let n = next_seq s.version_set.last_sequence in
      let m = s.memtable in
      let r =
        written-get s _ (Memtable.put m k x n) n j (if key_eq j k then some (some x) else none) v
          room (write-IsValid m k x n v.memtable).0 fit (ground (arith, (get-write m k x n j).0)) in
      (r.0 ∙ if_ok (key_eq j k) (some x) (get s j), r.1)

  -- From a well-formed state whose next file number is below 2^64 - 1, if the entries of the
  -- memtable with the tombstone fit a table: a read after `delete` sees nothing at its key and
  -- the old answer at any other key, whether or not the write starts a flush; and the state stays
  -- well-formed.
  pub delete-get :
      (s : Engine Table) (k j : Key)
      → IsValid s
      → HasNumber s.version_set
      → tables.fits
          (entries_of (Memtable.delete s.memtable k (next_seq s.version_set.last_sequence)))
        ≡ true
      → (get (delete s k) j ≡ (if key_eq j k then ok none else get s j)) × IsValid (delete s k)
  unfolding delete
  delete-get s k j v room fit =
      let n = next_seq s.version_set.last_sequence in
      let m = s.memtable in
      let r =
        written-get s _ (Memtable.delete m k n) n j (if key_eq j k then some none else none) v room
          (write-IsValid m k [] n v.memtable).1 fit (ground (arith, (get-write m k [] n j).1)) in
      (r.0 ∙ if_ok (key_eq j k) none (get s j), r.1)

  -- From a well-formed state whose next file number is below 2^64 - 1, if the entries of the
  -- memtable with the batch applied fit a table: after a batch a read of a key sees the last
  -- operation of the batch on that key, and the old answer if there is none, whether or not the
  -- batch starts a flush; and the state stays well-formed.
  pub write_batch-get :
      (s : Engine Table) (batch : WriteBatch) (j : Key)
      → IsValid s
      → HasNumber s.version_set
      → tables.fits (entries_of (apply_ops s.memtable s.version_set.last_sequence batch.ops)) ≡ true
      → (get (write_batch s batch) j ≡ after_batch (last_op j batch.ops) (get s j))
        × IsValid (write_batch s batch)
  unfolding write_batch
  write_batch-get s batch j v room fit =
      let n = s.version_set.last_sequence in
      let m = s.memtable in
      elim (Bool-cases (length batch.ops == 0)) [
        | inl none_queued ↦ rw none_queued (rw (last_op-empty j batch.ops none_queued) (refl, v))
        | inr queued ↦ rw queued (
            written-get s _ (apply_ops m n batch.ops) ((n + length batch.ops) % 2 ^ 64) j
              (last_op j batch.ops) v room (apply_ops-IsValid m n batch.ops v.memtable) fit
              (get-apply_ops m n batch.ops j))
      ]
