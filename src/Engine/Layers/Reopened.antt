-- ===== src/Engine/Layers/Reopened.antt =====
-- The layers of src/engine.rs after `open`.
use flash_store.Prelude.{ap, sym, ◌∙◌, subst, In, arith}
use flash_store.BTreeMap
use flash_store.BTreeMap.{BTreeMap}
use flash_store.External.{Buf, Crc32, Bincode}
use flash_store.Manifest.{VersionEdit}
use flash_store.Manifest.Levels.{files_at}
use flash_store.Tables.{Tables}
use flash_store.Types.{Key, Entry}
use flash_store.Wal.Record.{WalRecord}
use flash_store.Wal.Recovery.{read_all_complete}
use flash_store.Engine.{Engine}
use flash_store.Engine.Opening.{recovered}
use flash_store.Engine.Durable.{Persisted}
use flash_store.Engine.Durable.Reopened.{reopened, reopened_parts}
use flash_store.Memtable.Skiplist.{SkipList}
use flash_store.Engine.Layers.{IsLayered, held}
use flash_store.Engine.Layers.Newest.{IsHeld}
use flash_store.Engine.Layers.Recorded.{recorded_last-edits}
use flash_store.Engine.Layers.Steps.{InOrder}

module _ {Table : Type 0} ⦃tables : Tables Table⦄ ⦃buf : Buf⦄ ⦃crc : Crc32⦄
    ⦃wal_codec : Bincode WalRecord⦄ ⦃edit_codec : Bincode VersionEdit⦄ where
  -- Opening the directory of a running engine keeps the tables in order.
  pub reopened-InOrder :
      (s : Engine Table) → Persisted s → InOrder s → InOrder (reopened s s.wal.file.content)
  unfolding recovered
  reopened-InOrder s p o =
      let t = reopened s s.wal.file.content in
      let (memtable, levels, last) =
        reopened_parts s s.wal.file.content p
          (rw p.log.holds.content (read_all_complete p.records p.log.holds.fit)) in
      let back = λ (k : Key) (e : Entry) (h : IsHeld (held t.files) k t.version_set.levels e).
        subst (λ x. IsHeld (held s.files) k x e) levels h in
      record {
        layered = record {
          order = subst (IsLayered (held s.files)) (sym levels) o.layered.order;
          stored = λ j g i. o.layered.stored j g (subst (λ x. In g (files_at j x)) levels i);
          handed_out = λ k e h.
              omega (
                arith,
                o.recorded k e (back k e h),
                recorded_last-edits s p.edits p.manifest,
                last,
              );
          memtable_newer = λ k a e m h.
              o.layered.memtable_newer k a e
                (ap (λ (x : SkipList). BTreeMap.get x.map k) (sym memtable) ∙ m) (back k e h);
        };
        recorded = λ k e h. o.recorded k e (back k e h);
      }
