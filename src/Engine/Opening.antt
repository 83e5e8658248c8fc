-- ===== src/Engine/Opening.antt =====
-- src/engine.rs: `open`, which replays the manifest and the log; `stats` and `close`.
use flash_store.Prelude.{
  All, ℕ, ◌<◌, ◌≡◌, ◌∙◌, refl, Bool, true, not, ◌&&◌, List, [], ◌∷◌, Option, none, some, length,
  ltb, if◌then◌else◌, if_keeps,
}
use flash_store.Bytes.{Bytes}
use flash_store.Config.{Options}
use flash_store.Disk.{open_existing, seek_end, sync_all}
use flash_store.Error.{Result, ok, err, invalid_argument}
use flash_store.External.{Buf, Crc32, Bincode}
use flash_store.Manifest.{
  VersionEdit, VersionSet, FileMetaData, new_set, log_and_apply, read_all_edits,
}
use flash_store.Manifest.Versions
use flash_store.Manifest.Versions.{
  new_set-IsValid, log_and_apply-IsValid, NumbersFit, NumbersFit-Room,
}
use flash_store.Memtable
use flash_store.Memtable.{MemTable}
use flash_store.Memtable.Size.{write-IsValid, new-IsValid}
use flash_store.Tables.{Tables}
use flash_store.Wal.{open_writer, read_all}
use flash_store.Wal.Record.{WalRecord}
use flash_store.Engine.{Engine}
use flash_store.Engine.Flush.{IsValid}

abbrev pub apply_edits : VersionSet → List VersionEdit → VersionSet
apply_edits vs [] = vs
apply_edits vs (e ∷ es) = apply_edits (log_and_apply vs e) es

abbrev pub max_record_seq : ℕ → List WalRecord → ℕ
max_record_seq n [] = n
max_record_seq n (r ∷ rs) = max_record_seq (if ltb n r.seq_no then r.seq_no else n) rs

abbrev pub replay_record : MemTable → WalRecord → MemTable
replay_record m r =
    if r.is_delete then Memtable.delete m r.key r.seq_no else Memtable.put m r.key r.value r.seq_no

-- Records up to `last_sequence` are in the tables, and are passed over.
unfoldable pub replay : ℕ → MemTable → List WalRecord → MemTable
replay last_sequence m [] = m
replay last_sequence m (r ∷ rs) =
    replay last_sequence (if ltb last_sequence r.seq_no then replay_record m r else m) rs

abbrev pub or_empty : Option Bytes → Bytes
or_empty none = []
or_empty (some b) = b

-- What a directory holds: the manifest, the log and the tables, as far as they exist.
pub record Directory (Table : Type 0) : Type 0 where
  pub exists : Bool
  pub manifest : Option Bytes
  pub wal : Option Bytes
  pub files : ℕ → Option Table

pub record Stats : Type 0 where
  pub active_memtable_size : ℕ
  pub immutable_memtables_count : ℕ
  pub levels_file_count : List ℕ

abbrev pub file_counts : List (List FileMetaData) → List ℕ
file_counts [] = []
file_counts (l ∷ ls) = length l ∷ file_counts ls

abbrev pub stats : {Table : Type 0} → Engine Table → Stats
stats s = record {
  active_memtable_size = Memtable.approximate_size s.memtable;
  immutable_memtables_count = length s.imm_memtables;
  levels_file_count = file_counts s.version_set.levels;
}

abbrev pub close : {Table : Type 0} → Engine Table → Engine Table
close s = record s { wal = record s.wal { file = sync_all s.wal.file } }

replay_record-IsValid :
    (m : MemTable) (r : WalRecord)
    → Memtable.Size.IsValid m
    → Memtable.Size.IsValid (replay_record m r)
replay_record-IsValid m r v =
    if_keeps Memtable.Size.IsValid r.is_delete _ _ (write-IsValid m r.key r.value r.seq_no v).1
      (write-IsValid m r.key r.value r.seq_no v).0

replay-IsValid :
    (n : ℕ) (m : MemTable) (rs : List WalRecord)
    → Memtable.Size.IsValid m
    → Memtable.Size.IsValid (replay n m rs)
unfolding replay
replay-IsValid n m [] v = v
replay-IsValid n m (r ∷ rs) v =
    replay-IsValid n (if ltb n r.seq_no then replay_record m r else m) rs
      (if_keeps Memtable.Size.IsValid (ltb n r.seq_no) _ m (replay_record-IsValid m r v) v)

apply_edits-IsValid :
    (vs : VersionSet) (es : List VersionEdit)
    → All NumbersFit es
    → Versions.IsValid vs
    → Versions.IsValid (apply_edits vs es)
apply_edits-IsValid vs [] fit v = v
apply_edits-IsValid vs (e ∷ es) fit v =
    apply_edits-IsValid (log_and_apply vs e) es fit.1
      (log_and_apply-IsValid vs e (NumbersFit-Room vs.next_file_number e fit.0) v).0

log_and_apply_max :
    (vs : VersionSet) (edit : VersionEdit) → (log_and_apply vs edit).max_levels ≡ vs.max_levels
unfolding log_and_apply
log_and_apply_max vs edit = refl

pub apply_edits_max :
    (vs : VersionSet) (es : List VersionEdit) → (apply_edits vs es).max_levels ≡ vs.max_levels
apply_edits_max vs [] = refl
apply_edits_max vs (e ∷ es) = apply_edits_max (log_and_apply vs e) es ∙ log_and_apply_max vs e

module _ (Table : Type 0) ⦃tables : Tables Table⦄ ⦃buf : Buf⦄ ⦃crc : Crc32⦄
    ⦃wal_codec : Bincode WalRecord⦄ ⦃edit_codec : Bincode VersionEdit⦄ where
  unfoldable pub recovered : Options → Directory Table → Engine Table
  recovered options d =
      let vs = apply_edits (new_set options.max_levels) (read_all_edits d.manifest) in
      let records = read_all (or_empty d.wal) in
      record {
        options = options;
        memtable = replay vs.last_sequence (Memtable.new 0) records;
        imm_memtables = [];
        wal = open_writer (or_empty d.wal) options.sync_wal;
        manifest = seek_end (open_existing (or_empty d.manifest));
        version_set = record vs { last_sequence = max_record_seq vs.last_sequence records };
        memtable_id_seq = 1;
        files = d.files;
      }

  -- `open`: a missing directory is made, or refused.
  unfoldable pub open_engine : Options → Directory Table → Result (Engine Table)
  open_engine options d =
      if not d.exists && not options.create_if_missing
      then err invalid_argument
      else ok (recovered options d)

  -- A recovered state is well-formed.
  pub recovered-IsValid :
      (options : Options) (d : Directory Table)
      → 0 < options.max_levels
      → All NumbersFit (read_all_edits d.manifest)
      → IsValid (recovered options d)
  unfolding recovered
  recovered-IsValid options d p fit =
      let edits = read_all_edits d.manifest in
      let v =
        apply_edits-IsValid (new_set options.max_levels) edits fit
          (new_set-IsValid options.max_levels) in
      record {
        memtable = replay-IsValid _ (Memtable.new 0) _ (new-IsValid 0);
        none_frozen = refl;
        versions = record { count = v.count; numbers = v.numbers; ordered = v.ordered };
        has_level = rw v.count (rw (apply_edits_max (new_set options.max_levels) edits) p);
      }

  -- Whatever bytes the manifest and the log hold: opening an existing directory gives a
  -- well-formed state, if the options ask for at least one level, and the files that the edits
  -- read from the manifest add have numbers below 2^64 - 1.
  pub open_engine-IsValid :
      (options : Options) (d : Directory Table)
      → d.exists ≡ true
      → 0 < options.max_levels
      → All NumbersFit (read_all_edits d.manifest)
      → (s : Engine Table) × (open_engine options d ≡ ok s) × IsValid s
  unfolding open_engine
  open_engine-IsValid options d e p fit =
      (recovered options d, rw e refl, recovered-IsValid options d p fit)
