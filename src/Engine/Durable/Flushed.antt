-- ===== src/Engine/Durable/Flushed.antt =====
-- `flush` of src/engine.rs keeps the directory a true description of the state.
use flash_store.Prelude.{
  ℕ, ◌+◌, ◌%◌, ◌^◌, ◌≤◌, ◌≡◌, refl, ap, sym, ◌∙◌, List, [], ◌∷◌, ◌++◌, arith, All, All-append,
  if_keeps, subst, ltb, if◌then◌else◌,
}
use flash_store.BTreeMap.{BTreeMap, values}
use flash_store.External.{Buf, Crc32, Bincode}
use flash_store.Manifest.{VersionEdit, VersionSet, new_set, log_and_apply}
use flash_store.Manifest.Log
use flash_store.Manifest.Versions.{NumbersFit}
use flash_store.Manifest.Log.{log_edit-frame, encode_all-snoc}
use flash_store.Memtable
use flash_store.Memtable.{MemTable}
use flash_store.Tables.{Tables}
use flash_store.Types.{Entry}
use flash_store.Wal
use flash_store.Wal.{WalWriter}
use flash_store.Wal.Record.{WalRecord}
use flash_store.Wal.Writes.{Holds, reset-Holds}
use flash_store.Engine.{Engine, flush, write_table, rewrite_wal, freeze, table_edit}
use flash_store.Engine.Entries.{entries_of-values}
use flash_store.Engine.Flush.{
  IsValid, without_memtable-only, write_table-memtables, log_and_apply_max,
}
use flash_store.Engine.Flushing.{entries_of, max_seq, without_memtable, sort_by_seq}
use flash_store.Engine.Opening.{apply_edits, replay}
use flash_store.Engine.Durable.{Persisted, Manifested, described, EditFits, SeqUpTo}

abbrev UpTo : ℕ → List Entry → Type 0
UpTo n es = All (λ (e : Entry). e.seq_no ≤ n) es

UpTo-values : (n : ℕ) (m : BTreeMap Entry) → SeqUpTo n m → UpTo n (values m)
UpTo-values n [] h = tt
UpTo-values n ((k, e) ∷ m) h = (h.0, UpTo-values n m h.1)

max_seq-le : (n m : ℕ) (es : List Entry) → m ≤ n → UpTo n es → max_seq m es ≤ n
max_seq-le n m [] p h = p
max_seq-le n m (e ∷ es) p h =
    max_seq-le n (if ltb m e.seq_no then e.seq_no else m) es (ground (arith, h.0)) h.1

pub apply_edits-snoc :
    (vs : VersionSet) (es : List VersionEdit) (e : VersionEdit)
    → apply_edits vs (es ++ e ∷ []) ≡ log_and_apply (apply_edits vs es) e
apply_edits-snoc vs [] e = refl
apply_edits-snoc vs (x ∷ es) e = apply_edits-snoc (log_and_apply vs x) es e

-- An edit changes the levels by the levels alone.
pub log_and_apply_levels :
    (vs ws : VersionSet) (e : VersionEdit)
    → vs.levels ≡ ws.levels
    → (log_and_apply vs e).levels ≡ (log_and_apply ws e).levels
unfolding log_and_apply
log_and_apply_levels vs ws e h = rw h refl

log_and_apply_last :
    (vs : VersionSet) (num size n : ℕ) (e : Entry) (es : List Entry)
    → vs.last_sequence ≤ n
    → max_seq 0 (e ∷ es) ≤ n
    → (log_and_apply vs (table_edit num size e es)).last_sequence ≤ n
unfolding log_and_apply
log_and_apply_last vs num size n e es h m = ground arith

log_and_apply_same :
    (vs : VersionSet) (num size : ℕ) (e : Entry) (es : List Entry)
    → max_seq 0 (e ∷ es) ≤ vs.last_sequence
    → (log_and_apply vs (table_edit num size e es)).last_sequence ≡ vs.last_sequence
unfolding log_and_apply
log_and_apply_same vs num size e es m = ground arith

reset_sync : (w : WalWriter) → (Wal.reset w).sync ≡ w.sync
unfolding Wal.reset
reset_sync w = refl

module _ {Table : Type 0} ⦃tables : Tables Table⦄ ⦃buf : Buf⦄ ⦃crc : Crc32⦄
    ⦃wal_codec : Bincode WalRecord⦄ ⦃edit_codec : Bincode VersionEdit⦄ where
  pub same-Manifested :
      (s t : Engine Table) (edits : List VersionEdit)
      → t.manifest ≡ s.manifest
      → t.options ≡ s.options
      → t.version_set.max_levels ≡ s.version_set.max_levels
      → t.version_set.levels ≡ s.version_set.levels
      → s.version_set.last_sequence ≤ t.version_set.last_sequence
      → Manifested edits s
      → Manifested edits t
  same-Manifested s t edits file options max levels last m = record {
    content = rw file m.content;
    durable = rw file m.durable;
    at_end = rw file m.at_end;
    fit = m.fit;
    numbers = m.numbers;
    max_levels = rw (max, options) m.max_levels;
    levels = rw (levels, options) m.levels;
    last = rw options (omega (arith, m.last));
  }

  -- The edits after a table is written.
  abbrev edits_after : Engine Table → List Entry → List VersionEdit → List VersionEdit
  edits_after s [] edits = edits
  edits_after s (e ∷ es) edits =
      edits ++ table_edit s.version_set.next_file_number (tables.build (e ∷ es)).1 e es ∷ []

  write_table-Manifested :
      (s : Engine Table) (es : List Entry) (edits : List VersionEdit)
      → EditFits s es
      → UpTo s.version_set.last_sequence es
      → Manifested edits s
      → Manifested (edits_after s es edits) (write_table s es)
  unfolding write_table
  write_table-Manifested s [] edits fit up m = record {
    content = m.content;
    durable = m.durable;
    at_end = m.at_end;
    fit = m.fit;
    numbers = m.numbers;
    max_levels = m.max_levels;
    levels = m.levels;
    last = m.last;
  }
  write_table-Manifested s (e ∷ es) edits (room, fit) up m =
      let vs = s.version_set in
      let size = (tables.build (e ∷ es)).1 in
      let edit = table_edit vs.next_file_number size e es in
      let (content, durable, at_end) = log_edit-frame s.manifest edit m.at_end fit in
      let top = max_seq-le vs.last_sequence 0 (e ∷ es) (omega arith) up in
      let new = apply_edits-snoc (new_set s.options.max_levels) edits edit in
      record {
        content =
            content ∙ ap (λ c. c ++ Log.encode edit) m.content ∙ sym (encode_all-snoc edits edit);
        durable = durable ∙ sym content;
        at_end = at_end;
        fit = All-append Log.Fits edits (edit ∷ []) m.fit (fit, tt);
        numbers = All-append NumbersFit edits (edit ∷ []) m.numbers ((room, tt), tt);
        max_levels = log_and_apply_max _ edit ∙ m.max_levels;
        levels =
            log_and_apply_levels _ (described s edits) edit m.levels ∙ ap (λ v. v.levels) (sym new);
        last =
            rw
              (
                new,
                log_and_apply_same
                    (record vs { next_file_number = (vs.next_file_number + 1) % 2 ^ 64 })
                    vs.next_file_number size e es top,
              )
              (log_and_apply_last (described s edits) vs.next_file_number size vs.last_sequence e es
                m.last top);
      }

  rewrite_wal-empty :
      (s : Engine Table) (id : ℕ)
      → without_memtable id s.imm_memtables ≡ []
      → s.memtable.table ≡ Memtable.Skiplist.new
      → (rewrite_wal s id).wal ≡ Wal.reset s.wal
  unfolding rewrite_wal Wal.append_batch sort_by_seq
  rewrite_wal-empty s id imm empty = rw imm (rw (entries_of-values s.memtable) (rw empty refl))

  write_table-rest :
      (s : Engine Table) (es : List Entry)
      → ((write_table s es).wal ≡ s.wal) × ((write_table s es).options ≡ s.options)
  unfolding write_table
  write_table-rest s [] = (refl, refl)
  write_table-rest s (e ∷ es) = (refl, refl)

  rewrite_wal-Persisted :
      (s : Engine Table) (id : ℕ) (edits : List VersionEdit) (records : List WalRecord)
      → without_memtable id s.imm_memtables ≡ []
      → s.memtable.table ≡ Memtable.Skiplist.new
      → Holds records s.wal
      → s.wal.sync ≡ s.options.sync_wal
      → Manifested edits s
      → Persisted (rewrite_wal s id)
  unfolding rewrite_wal replay
  rewrite_wal-Persisted s id edits records imm empty holds sync m =
      let wal = sym (rewrite_wal-empty s id imm empty) in
      record {
        edits = edits;
        manifest = same-Manifested s (rewrite_wal s id) edits refl refl refl refl (omega arith) m;
        records = [];
        log = record {
          holds = subst (Holds []) wal (reset-Holds records s.wal holds);
          sync = ap (λ w. w.sync) (sym wal) ∙ reset_sync s.wal ∙ sync;
          memtable = empty;
          bounded = subst (λ x. SeqUpTo s.version_set.last_sequence x.map) (sym empty) tt;
        };
      }

  frozen-Persisted :
      (s : Engine Table)
      → IsValid s
      → EditFits s (entries_of s.memtable)
      → Persisted s
      → Persisted (rewrite_wal (write_table (freeze s) (entries_of s.memtable)) s.memtable.id)
  unfolding freeze
  frozen-Persisted s v fit p =
      let es = entries_of s.memtable in
      let t = write_table (freeze s) es in
      let (memtable, imm) = write_table-memtables (freeze s) es in
      let (wal, options) = write_table-rest (freeze s) es in
      let up : UpTo s.version_set.last_sequence es =
        rw (entries_of-values s.memtable) (UpTo-values _ s.memtable.table.map p.log.bounded) in
      rewrite_wal-Persisted t s.memtable.id (edits_after (freeze s) es p.edits) p.records
        (rw imm (rw v.none_frozen (without_memtable-only s.memtable))) (ap (λ m. m.table) memtable)
        (subst (Holds p.records) (sym wal) p.log.holds) (rw (wal, options) p.log.sync)
        (write_table-Manifested (freeze s) es p.edits fit up
          (same-Manifested s (freeze s) p.edits refl refl refl refl (omega arith) p.manifest))

  -- A flush whose edit is below 4 GiB keeps the directory a true description of the state.
  pub flush-Persisted :
      (s : Engine Table)
      → IsValid s
      → EditFits s (entries_of s.memtable)
      → Persisted s
      → Persisted (flush s)
  unfolding flush
  flush-Persisted s v fit p = if_keeps Persisted _ s _ p (frozen-Persisted s v fit p)
