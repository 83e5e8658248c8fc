-- ===== src/Engine/Layers/Steps.antt =====
-- What the operations of src/engine.rs other than `compact` make of the layers.
use flash_store.Prelude.{
  length, ℕ, ◌+◌, ◌^◌, ◌<◌, ◌≤◌, ◌≡◌, refl, ap, sym, ◌∙◌, subst, List, [], ◌∷◌, some, In, inl, inr,
  arith, ◌⊎◌, true, All, Bool-cases, if_keeps,
}
use mathlib.Core.Option.{some-injective}
use flash_store.Batch.{BatchOp}
use flash_store.BTreeMap
use flash_store.BTreeMap.{BTreeMap, values}
use flash_store.BTreeMap.Laws.{get-insert}
use flash_store.Bytes.{key_eq}
use flash_store.External.{Buf, Crc32, Bincode}
use flash_store.Manifest.{FileMetaData, VersionEdit, add_files, delete_files, log_and_apply}
use flash_store.Manifest.Levels.{files_at}
use flash_store.Manifest.Versions.{Below}
use flash_store.Memtable
use flash_store.Memtable.{MemTable}
use flash_store.Sstable.Block.Search.{IsSorted, find}
use flash_store.Tables.{Tables}
use flash_store.Types.{Key, Value, Entry}
use flash_store.Wal.{WalWriter}
use flash_store.Wal.Record.{WalRecord}
use flash_store.Engine.{
  Engine, apply_ops, next_seq, flush, write_table, rewrite_wal, freeze, maybe_schedule_flush,
  table_edit,
}
use flash_store.Engine.Entries.{entries_of-values, values-IsSorted, get-find}
use flash_store.Engine.Flush.{IsValid}
use flash_store.Engine.Flushing.{entries_of, last_key}
use flash_store.Engine.Writes.{written}
use flash_store.Engine.Durable.{Persisted, Manifested, SeqUpTo, described, EditFits, FlushFits}
use flash_store.Engine.Layers.{IsLayered, held, Stored}
use flash_store.Engine.Layers.Compacted.{update_file-same}
use flash_store.Engine.Layers.Flushed.{flushed-IsLayered, flushed-IsHeld, flushed-Stored}
use flash_store.Engine.Layers.Gathered.{sorted_range}
use flash_store.Engine.Layers.Newest.{IsHeld}
use flash_store.Engine.Layers.Passes.{Layered, file-Below}
use flash_store.Engine.Layers.Recorded.{
  Recorded, recorded_last, recorded_last-edits, recorded_last-log_edit, log_and_apply_grows,
  table_edit-records,
}

-- What a map has besides the old entries is above `n`.
abbrev pub Extends : ℕ → BTreeMap Entry → BTreeMap Entry → Type 0
Extends n m m' =
    (k : Key) (a : Entry)
    → BTreeMap.get m' k ≡ some a
    → (BTreeMap.get m k ≡ some a) ⊎ (n < a.seq_no)

insert-Extends :
    (n : ℕ) (m : BTreeMap Entry) (j : Key) (e : Entry)
    → n < e.seq_no
    → Extends n m (BTreeMap.insert m j e)
insert-Extends n m j e lt k a h = elim (Bool-cases (key_eq k j)) [
  | inl same ↦ inr (
      subst (λ x. n < x.seq_no) (some-injective e a (rw same at (sym (get-insert m j e k) ∙ h))) lt)
  | inr other ↦ inl (rw other at (sym (get-insert m j e k) ∙ h))
]

pub write-Extends :
    (n : ℕ) (m : MemTable) (k : Key) (v : Value) (seq : ℕ)
    → n < seq
    → Extends n m.table.map (Memtable.put m k v seq).table.map
      × Extends n m.table.map (Memtable.delete m k seq).table.map
unfolding Memtable.put Memtable.delete
write-Extends n m k v seq lt =
    (insert-Extends n m.table.map k _ lt, insert-Extends n m.table.map k _ lt)

Extends-trans : (n : ℕ) (a b c : BTreeMap Entry) → Extends n a b → Extends n b c → Extends n a c
Extends-trans n a b c p q k x h = elim (q k x h) [ inl g ↦ p k x g | inr lt ↦ inr lt ]

pub apply_ops-Extends :
    (n : ℕ) (m : MemTable) (seq : ℕ) (ops : List BatchOp)
    → n ≤ seq
    → seq + length ops < 2 ^ 64
    → Extends n m.table.map (apply_ops m seq ops).table.map
apply_ops-Extends n m seq [] le small = λ k a h. inl h
apply_ops-Extends n m seq (BatchOp.put k v ∷ ops) le small =
    Extends-trans n m.table.map (Memtable.put m k v (next_seq seq)).table.map _
      (write-Extends n m k v (next_seq seq) (omega arith)).0
      (apply_ops-Extends n (Memtable.put m k v (next_seq seq)) (next_seq seq) ops (omega arith)
        (omega arith))
apply_ops-Extends n m seq (BatchOp.delete k ∷ ops) le small =
    Extends-trans n m.table.map (Memtable.delete m k (next_seq seq)).table.map _
      (write-Extends n m k [] (next_seq seq) (omega arith)).1
      (apply_ops-Extends n (Memtable.delete m k (next_seq seq)) (next_seq seq) ops (omega arith)
        (omega arith))

get-SeqUpTo :
    (n : ℕ) (m : BTreeMap Entry) (k : Key) (a : Entry)
    → SeqUpTo n m
    → BTreeMap.get m k ≡ some a
    → a.seq_no ≤ n
unfolding BTreeMap.get
get-SeqUpTo n [] k a b h = absurd cc
get-SeqUpTo n ((j, e) ∷ m) k a b h = elim (Bool-cases (key_eq k j)) [
  | inl same ↦ subst (λ x. x.seq_no ≤ n) (some-injective e a (rw same at h)) b.0
  | inr other ↦ get-SeqUpTo n m k a b.1 (rw other at h)
]

module _ {Table : Type 0} ⦃tables : Tables Table⦄ where
  -- The layers depend on the tables and the memtable alone.
  pub same-Layered :
      (s t : Engine Table)
      → t.files ≡ s.files
      → t.version_set.levels ≡ s.version_set.levels
      → s.version_set.last_sequence ≤ t.version_set.last_sequence
      → Extends s.version_set.last_sequence s.memtable.table.map t.memtable.table.map
      → Layered s
      → Layered t
  same-Layered s t files levels last extends l =
      let back = λ (k : Key) (e : Entry) (h : IsHeld (held t.files) k t.version_set.levels e).
        subst (λ f. IsHeld (held f) k s.version_set.levels e) files
          (subst (λ x. IsHeld (held t.files) k x e) levels h) in
      record {
        order =
            subst (λ f. IsLayered (held f) t.version_set.levels) (sym files)
              (subst (IsLayered (held s.files)) (sym levels) l.order);
        stored = λ j g i.
            subst (λ f. Stored f g) (sym files)
              (l.stored j g (subst (λ x. In g (files_at j x)) levels i));
        handed_out = λ k e h. omega (arith, l.handed_out k e (back k e h));
        memtable_newer = λ k a e m h. elim (extends k a m) [
          | inl old ↦ l.memtable_newer k a e old (back k e h)
          | inr new ↦ omega (arith, l.handed_out k e (back k e h))
        ];
      }

module _ {Table : Type 0} ⦃tables : Tables Table⦄ ⦃buf : Buf⦄ ⦃crc : Crc32⦄
    ⦃wal_codec : Bincode WalRecord⦄ ⦃edit_codec : Bincode VersionEdit⦄ where
  -- The tables are in order, and their sequence numbers are recorded.
  pub record InOrder (s : Engine Table) : Type 0 where
    pub layered : Layered s
    pub recorded : Recorded s

  pub same-InOrder :
      (s t : Engine Table)
      → t.files ≡ s.files
      → t.version_set.levels ≡ s.version_set.levels
      → s.version_set.last_sequence ≤ t.version_set.last_sequence
      → Extends s.version_set.last_sequence s.memtable.table.map t.memtable.table.map
      → recorded_last s ≤ recorded_last t
      → InOrder s
      → InOrder t
  same-InOrder s t files levels last extends grows o = record {
    layered = same-Layered s t files levels last extends o.layered;
    recorded = λ k e h.
        let old =
          subst (λ f. IsHeld (held f) k s.version_set.levels e) files
            (subst (λ x. IsHeld (held t.files) k x e) levels h) in
        omega (arith, o.recorded k e old);
  }

  -- A write with higher numbers.
  pub written-InOrder :
      (s : Engine Table) (w : WalWriter) (m : MemTable) (n : ℕ)
      → s.version_set.last_sequence ≤ n
      → Extends s.version_set.last_sequence s.memtable.table.map m.table.map
      → InOrder s
      → InOrder (written s w m n)
  written-InOrder s w m n le extends o =
      same-InOrder s (written s w m n) refl refl le extends (omega arith) o

  -- A new table of what the memtable held.
  table-InOrder :
      (s : Engine Table) (es : List Entry) (edits : List VersionEdit)
      → All (Below s.version_set.next_file_number) s.version_set.levels
      → IsSorted es
      → tables.fits es ≡ true
      → EditFits s es
      → ((k : Key) (a : Entry) → find k es ≡ some a → BTreeMap.get s.memtable.table.map k ≡ some a)
      → SeqUpTo s.version_set.last_sequence s.memtable.table.map
      → Manifested edits s
      → InOrder s
      → InOrder (write_table (freeze s) es)
  unfolding write_table freeze log_and_apply add_files delete_files BTreeMap.get
  table-InOrder s [] edits numbers sorted fit edit_fits holds bounded m o = record {
    layered = record {
      order = o.layered.order;
      stored = o.layered.stored;
      handed_out = o.layered.handed_out;
      memtable_newer = λ k a e h _. absurd cc;
    };
    recorded = o.recorded;
  }
  table-InOrder s (e ∷ es) edits numbers sorted fit edit_fits holds bounded m o =
      let l = o.layered in
      let n = s.version_set.next_file_number in
      let (t, size) = tables.build (e ∷ es) in
      let f : FileMetaData = record {
        file_number = n;
        file_size = size;
        smallest_key = e.key;
        largest_key = last_key e.key es;
      } in
      let ls = s.version_set.levels in
      let edit = table_edit n size e es in
      let read = tables.read_all-build (e ∷ es) sorted fit in
      let below =
        λ (j : ℕ) (g : FileMetaData) (i : In g (files_at j ls)). file-Below n ls j g numbers i in
      let newer =
        λ (k : Key) (a x : Entry) (h : find k (e ∷ es) ≡ some a) (i : IsHeld (held s.files) k ls x).
          l.memtable_newer k a x (holds k a h) i in
      let u = write_table (freeze s) (e ∷ es) in
      let either = flushed-IsHeld Table s.files ls f t (e ∷ es) l.order l.stored below read newer in
      let grows = log_and_apply_grows (freeze s).version_set edit in
      let now = recorded_last-log_edit s u edits edit m edit_fits.1 refl refl in
      let before = recorded_last-edits s edits m in
      record {
        layered = record {
          order = flushed-IsLayered Table s.files ls f t (e ∷ es) l.order l.stored below read newer;
          stored = flushed-Stored Table s.files ls f t (e ∷ es) l.order l.stored below read newer (
            t,
            (
              update_file-same s.files n t,
              record {
                entries = e ∷ es;
                read_all = read;
                sorted = sorted;
                lookup = λ k. tables.lookup-build (e ∷ es) k sorted fit;
                ranged = sorted_range e es sorted;
              },
            ),
          );
          handed_out = λ k x h. elim (either k x h) [
            | inl old ↦ omega (arith, l.handed_out k x old, grows)
            | inr new ↦
                omega (arith, get-SeqUpTo _ s.memtable.table.map k x bounded (holds k x new), grows)
          ];
          memtable_newer = λ k a x h _. absurd cc;
        };
        recorded = λ k x h. elim (either k x h) [
          | inl old ↦
              omega (
                arith,
                o.recorded k x old,
                before,
                now,
                log_and_apply_grows (described s edits) edit,
              )
          | inr new ↦ omega (arith, now, table_edit-records (described s edits) n size e es k x new)
        ];
      }

  rewrite_wal-InOrder : (s : Engine Table) (id : ℕ) → InOrder s → InOrder (rewrite_wal s id)
  unfolding rewrite_wal
  rewrite_wal-InOrder s id o =
      same-InOrder s (rewrite_wal s id) refl refl (omega arith) (λ k a h. inl h) (omega arith) o

  -- A flush keeps the tables in order.
  pub flush-InOrder :
      (s : Engine Table)
      → IsValid s
      → (p : Persisted s) → FlushFits s
      → InOrder s
      → InOrder (flush s)
  unfolding flush
  flush-InOrder s v p (fit, edit_fits) o =
      let m = s.memtable in
      let es = entries_of m in
      let sorted : IsSorted es =
        rw (entries_of-values m) (values-IsSorted m.table.map v.memtable.keyed v.memtable.sorted) in
      let holds = λ (k : Key) (a : Entry) (h : find k es ≡ some a).
        get-find m.table.map k v.memtable.keyed ∙ ap (find k) (sym (entries_of-values m)) ∙ h in
      if_keeps InOrder _ s _ o (
        rewrite_wal-InOrder (write_table (freeze s) es) m.id (
          table-InOrder s es p.edits v.versions.numbers sorted fit edit_fits holds p.log.bounded
            p.manifest o))

  pub maybe-InOrder :
      (s : Engine Table)
      → IsValid s
      → (p : Persisted s) → FlushFits s
      → InOrder s
      → InOrder (maybe_schedule_flush s)
  unfolding maybe_schedule_flush
  maybe-InOrder s v p fit o = if_keeps InOrder _ (flush s) s (flush-InOrder s v p fit o) o
