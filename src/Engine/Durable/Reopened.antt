-- ===== src/Engine/Durable/Reopened.antt =====
-- `open` of src/engine.rs on what a running engine has written.
use flash_store.Prelude.{
  subst, ℕ, ◌≤◌, ◌<◌, ◌≡◌, refl, ap, ap₂, sym, ◌∙◌, List, [], ◌∷◌, ◌++◌, length, take, Option, some,
  arith, All, if_keeps, ltb, if◌then◌else◌,
}
use flash_store.Bytes.{Bytes}
use flash_store.BTreeMap
use flash_store.BTreeMap.{BTreeMap}
use flash_store.Error.{ok}
use flash_store.External.{Buf, Crc32, Bincode}
use flash_store.Manifest
use flash_store.Manifest.{VersionEdit, VersionSet, new_set, read_all_edits}
use flash_store.Manifest.Log.{read_all_edits_complete}
use flash_store.Manifest.Versions.{NumbersFit}
use flash_store.Memtable
use flash_store.Memtable.{MemTable, insert_entry}
use flash_store.Tables.{Tables}
use flash_store.Types.{Key, Value, Entry}
use flash_store.Wal.{read_all, open_writer}
use flash_store.Wal
use flash_store.Wal.Record.{WalRecord, encode}
use flash_store.Wal.Recovery.{read_all_complete, read_all_torn}
use flash_store.Engine.{Engine, get}
use flash_store.Engine.Flush.{IsValid, get-parts, found}
use flash_store.Engine.Search.{or_else, search_version}
use flash_store.Engine.Opening.{
  recovered, apply_edits_max, replay, replay_record, max_record_seq, recovered-IsValid,
}
use flash_store.Engine.Durable.{Persisted, Manifested, Logged, described, SeqUpTo, directory_of}

-- A memtable answers by its table.
pub memtable_get_table :
    (m n : MemTable) (k : Key) → m.table ≡ n.table → Memtable.get m k ≡ Memtable.get n k
unfolding Memtable.get
memtable_get_table m n k h = rw h refl

pub SeqUpTo-mono : (n p : ℕ) (m : BTreeMap Entry) → n ≤ p → SeqUpTo n m → SeqUpTo p m
SeqUpTo-mono n p [] le h = tt
SeqUpTo-mono n p ((k, e) ∷ m) le h = (omega (arith, h.0), SeqUpTo-mono n p m le h.1)

SeqUpTo-insert :
    (n : ℕ) (m : BTreeMap Entry) (k : Key) (e : Entry)
    → e.seq_no ≤ n
    → SeqUpTo n m
    → SeqUpTo n (BTreeMap.insert m k e)
unfolding BTreeMap.insert
SeqUpTo-insert n [] k e le h = (le, tt)
SeqUpTo-insert n ((j, x) ∷ m) k e le h = ground (arith, h.0, SeqUpTo-insert n m k e le h.1)

-- A write with a number up to `n`, and so a replayed record.
pub SeqUpTo-write :
    (n : ℕ) (m : MemTable) (k : Key) (v : Value) (seq : ℕ)
    → seq ≤ n
    → SeqUpTo n m.table.map
    → SeqUpTo n (Memtable.put m k v seq).table.map × SeqUpTo n (Memtable.delete m k seq).table.map
unfolding Memtable.put Memtable.delete
SeqUpTo-write n m k v seq le h =
    (SeqUpTo-insert n m.table.map k _ le h, SeqUpTo-insert n m.table.map k _ le h)

SeqUpTo-replay :
    (n last : ℕ) (m : MemTable) (rs : List WalRecord)
    → All (λ (r : WalRecord). r.seq_no ≤ n) rs
    → SeqUpTo n m.table.map
    → SeqUpTo n (replay last m rs).table.map
unfolding replay
SeqUpTo-replay n last m [] le h = h
SeqUpTo-replay n last m (r ∷ rs) le h =
    let w = SeqUpTo-write n m r.key r.value r.seq_no le.0 h in
    let P : MemTable → Type 0 = λ x. SeqUpTo n x.table.map in
    SeqUpTo-replay n last (if ltb last r.seq_no then replay_record m r else m) rs le.1
      (if_keeps P (ltb last r.seq_no) _ m (if_keeps P r.is_delete _ _ w.1 w.0) h)

max_record_seq-ge : (n : ℕ) (rs : List WalRecord) → n ≤ max_record_seq n rs
max_record_seq-ge n [] = omega arith
max_record_seq-ge n (r ∷ rs) =
    let m = if ltb n r.seq_no then r.seq_no else n in ground (arith, max_record_seq-ge m rs)

max_record_seq-All :
    (n : ℕ) (rs : List WalRecord) → All (λ (r : WalRecord). r.seq_no ≤ max_record_seq n rs) rs
max_record_seq-All n [] = tt
max_record_seq-All n (r ∷ rs) =
    let m = if ltb n r.seq_no then r.seq_no else n in
    (ground (arith, max_record_seq-ge m rs), max_record_seq-All m rs)

module _ {Table : Type 0} ⦃tables : Tables Table⦄ ⦃buf : Buf⦄ ⦃crc : Crc32⦄
    ⦃wal_codec : Bincode WalRecord⦄ ⦃edit_codec : Bincode VersionEdit⦄ where
  -- The engine that `open` makes of the manifest and the tables of a state, and of a log.
  abbrev pub reopened : Engine Table → Bytes → Engine Table
  reopened s log = recovered Table s.options (directory_of s log)

  pub edits_read :
      (s : Engine Table) (edits : List VersionEdit)
      → Manifested edits s
      → read_all_edits (some s.manifest.content) ≡ edits
  edits_read s edits m = rw m.content (read_all_edits_complete edits m.fit)

  positive_levels :
      (s : Engine Table) (edits : List VersionEdit)
      → IsValid s
      → Manifested edits s
      → 0 < s.options.max_levels
  positive_levels s edits v m = rw (← m.max_levels) (rw (← v.versions.count) v.has_level)

  -- If recovery reads just the records of a log, the memtable and the levels are those of the
  -- state, and the last sequence number is not below the one in the manifest.
  pub reopened_parts :
      (s : Engine Table) (log : Bytes) (p : Persisted s)
      → read_all log ≡ p.records
      → ((reopened s log).memtable.table ≡ s.memtable.table)
        × ((reopened s log).version_set.levels ≡ s.version_set.levels)
        × ((described s p.edits).last_sequence ≤ (reopened s log).version_set.last_sequence)
  unfolding recovered
  reopened_parts s log p read =
      let edits = edits_read s p.edits p.manifest in
      (
        ap₂ (λ e rs. (replay (described s e).last_sequence (Memtable.new 0) rs).table) edits read
            ∙ sym p.log.memtable,
        ap (λ e. (described s e).levels) edits ∙ sym p.manifest.levels,
        rw edits (max_record_seq-ge (described s p.edits).last_sequence (read_all log)),
      )

  -- If recovery reads just the records of a log, reads are those of the state.
  pub get-reopened :
      (s : Engine Table) (log : Bytes) (k : Key)
      → IsValid s
      → (p : Persisted s) → read_all log ≡ p.records
      → get (reopened s log) k ≡ get s k
  unfolding recovered
  get-reopened s log k v p read =
      let (memtable, levels, _) = reopened_parts s log p read in
      get-parts (reopened s log) k refl
      ∙ ap₂
          (λ (m : Option (Option Value)) (ls : Manifest.Levels).
            found (or_else (ok m) (search_version s.files k ls)))
          (memtable_get_table (reopened s log).memtable s.memtable k memtable) levels
      ∙ sym (get-parts s k v.none_frozen)

  reopened-Logged :
      (s : Engine Table) (p : Persisted s)
      → Logged (described s p.edits).last_sequence p.records (reopened s s.wal.file.content)
  unfolding recovered open_writer
  reopened-Logged s p =
      let last = (described s p.edits).last_sequence in
      let edits = edits_read s p.edits p.manifest in
      let read : read_all s.wal.file.content ≡ p.records =
        rw p.log.holds.content (read_all_complete p.records p.log.holds.fit) in
      record {
        holds = record {
          content = p.log.holds.content;
          at_end = refl;
          synced = λ _. refl;
          fit = p.log.holds.fit;
        };
        sync = refl;
        memtable =
            ap₂ (λ e rs. (replay (described s e).last_sequence (Memtable.new 0) rs).table) edits
              read;
        bounded = rw edits (
            rw read (
              SeqUpTo-replay (max_record_seq last p.records) last (Memtable.new 0) p.records
                (max_record_seq-All last p.records) tt));
      }

  reopened-Manifested :
      (s : Engine Table) (log : Bytes) (edits : List VersionEdit)
      → Manifested edits s
      → Manifested edits (reopened s log)
  unfolding recovered
  reopened-Manifested s log edits m =
      let same = edits_read s edits m in
      record {
        content = m.content;
        durable = refl;
        at_end = refl;
        fit = m.fit;
        numbers = m.numbers;
        max_levels = rw (same, apply_edits_max) refl;
        levels = ap (λ e. (described s e).levels) same;
        last = rw same (max_record_seq-ge _ (read_all log));
      }

  -- Reopening keeps a state well-formed, and its directory a true description of it.
  pub reopened-Persisted :
      (s : Engine Table)
      → IsValid s
      → Persisted s
      → IsValid (reopened s s.wal.file.content) × Persisted (reopened s s.wal.file.content)
  unfolding recovered
  reopened-Persisted s v p = (
    recovered-IsValid Table s.options (directory_of s s.wal.file.content)
        (positive_levels s p.edits v p.manifest)
        (subst (All NumbersFit) (sym (edits_read s p.edits p.manifest)) p.manifest.numbers),
    record {
      edits = p.edits;
      manifest = reopened-Manifested s s.wal.file.content p.edits p.manifest;
      records = p.records;
      log = reopened-Logged s p;
    },
  )

  -- Reopening whole files changes no read.
  pub get-reopened_whole :
      (s : Engine Table) (k : Key)
      → IsValid s
      → Persisted s
      → get (reopened s s.wal.file.content) k ≡ get s k
  get-reopened_whole s k v p =
      get-reopened s _ k v p (rw p.log.holds.content (read_all_complete p.records p.log.holds.fit))

  -- From a well-formed state that its directory describes: if the process stops while one more
  -- record below 4 GiB is being appended to the log, which leaves a proper prefix of its frame,
  -- then after `open` every read answers as it did before that append.
  pub get-reopened_torn :
      (s : Engine Table) (r : WalRecord) (n : ℕ) (k : Key)
      → IsValid s
      → Persisted s
      → Wal.Frames.Fits r
      → n < length (encode r)
      → get (reopened s (s.wal.file.content ++ take n (encode r))) k ≡ get s k
  get-reopened_torn s r n k v p fit lt =
      get-reopened s _ k v p
        (rw p.log.holds.content (read_all_torn p.records r n p.log.holds.fit fit lt))
