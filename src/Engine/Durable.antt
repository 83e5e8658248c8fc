-- ===== src/Engine/Durable.antt =====
-- What src/engine.rs keeps on disk: how the manifest, the log and the tables describe the state, and
-- what a process that stops leaves behind.
pub mod Flushed
pub mod Reopened
pub mod Logging
pub mod Commands
pub mod Run
pub mod Fresh
use flash_store.Prelude.{ℕ, ◌+◌, ◌≤◌, ◌≡◌, Bool, true, List, [], ◌∷◌, Option, some, length, All}
use flash_store.Bytes.{Bytes}
use flash_store.External.{Buf, Crc32, Bincode}
use flash_store.Manifest.{VersionEdit, VersionSet, new_set}
use flash_store.Manifest.Log
use flash_store.Manifest.Versions.{HasNumber, NumbersFit}
use flash_store.Memtable
use flash_store.Memtable.{MemTable}
use flash_store.Tables.{Tables}
use flash_store.Types.{Key, Entry}
use flash_store.BTreeMap.{BTreeMap}
use flash_store.Wal.Record.{WalRecord}
use flash_store.Wal.Writes.{Holds}
use flash_store.Engine.{Engine, table_edit}
use flash_store.Engine.Flushing.{entries_of}
use flash_store.Engine.Opening.{Directory, recovered, apply_edits, replay}

-- The entries of a map have sequence numbers up to `n`.
abbrev pub SeqUpTo : ℕ → BTreeMap Entry → Type 0
SeqUpTo n m = All (λ (p : Bytes × Entry). p.1.seq_no ≤ n) m

-- The directory that a running engine has written.
abbrev pub directory_of : {Table : Type 0} → Engine Table → Bytes → Directory Table
directory_of s log = record {
  exists = true;
  manifest = some s.manifest.content;
  wal = some log;
  files = s.files;
}

module _ {Table : Type 0} ⦃tables : Tables Table⦄ ⦃buf : Buf⦄ ⦃crc : Crc32⦄
    ⦃wal_codec : Bincode WalRecord⦄ ⦃edit_codec : Bincode VersionEdit⦄ where
  -- The version set that the edits describe.
  abbrev pub described : Engine Table → List VersionEdit → VersionSet
  described s edits = apply_edits (new_set s.options.max_levels) edits

  -- The manifest holds just the edits, durably, and they describe the levels of the state.
  pub record Manifested (edits : List VersionEdit) (s : Engine Table) : Type 0 where
    pub content : s.manifest.content ≡ Log.encode_all edits
    pub durable : s.manifest.durable ≡ s.manifest.content
    pub at_end : s.manifest.pos ≡ length s.manifest.content
    pub fit : All Log.Fits edits
    pub numbers : All NumbersFit edits
    pub max_levels : s.version_set.max_levels ≡ s.options.max_levels
    pub levels : s.version_set.levels ≡ (described s edits).levels
    pub last : (described s edits).last_sequence ≤ s.version_set.last_sequence

  -- The log holds just the records, their replay gives the active memtable, and no entry has a
  -- sequence number above the last one.
  pub record Logged (last : ℕ) (records : List WalRecord) (s : Engine Table) : Type 0 where
    pub holds : Holds records s.wal
    pub sync : s.wal.sync ≡ s.options.sync_wal
    pub memtable : s.memtable.table ≡ (replay last (Memtable.new 0) records).table
    pub bounded : SeqUpTo s.version_set.last_sequence s.memtable.table.map

  -- The directory describes the state.
  pub record Persisted (s : Engine Table) : Type 0 where
    pub edits : List VersionEdit
    pub manifest : Manifested edits s
    pub records : List WalRecord
    pub log : Logged (described s edits).last_sequence records s

  abbrev pub EditSmall : Engine Table → List Entry → Type 0
  EditSmall s [] = Unit
  EditSmall s (e ∷ es) =
      Log.Fits (table_edit s.version_set.next_file_number (tables.build (e ∷ es)).1 e es)

  abbrev pub EditFits : Engine Table → List Entry → Type 0
  EditFits s es = HasNumber s.version_set × EditSmall s es

  -- A flush of the memtable can write its table, has a file number for it, and writes an edit below
  -- 4 GiB.
  abbrev pub FlushFits : Engine Table → Type 0
  FlushFits s = (tables.fits (entries_of s.memtable) ≡ true) × EditFits s (entries_of s.memtable)
