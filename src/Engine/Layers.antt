-- ===== src/Engine/Layers.antt =====
-- The tables of a version of src/engine.rs as layers: what each file holds, and which file hides
-- which.
pub mod Reads
pub mod Newest
pub mod Pass
pub mod Kept
pub mod Answers
pub mod Gathered
pub mod Removed
pub mod Task
pub mod Step
pub mod Compacted
pub mod Passes
pub mod Loop
pub mod Flushed
pub mod Recorded
pub mod Steps
pub mod Reopened
pub mod Durable
pub mod Scanned
use flash_store.Prelude.{ℕ, ◌<◌, ◌≡◌, List, [], ◌∷◌, Option, none, some, All, In}
use flash_store.Compaction.Ranges.{Between}
use flash_store.Error.{Result, ok, err}
use flash_store.Manifest.{FileMetaData, Levels}
use flash_store.Manifest.Levels.{files_at}
use flash_store.Sstable.Block.Search.{IsSorted, find}
use flash_store.Tables.{Tables, answer_of}
use flash_store.Types.{Key, Entry}

-- What a file holds under a key.
abbrev pub Held : Type 0
Held = Key → FileMetaData → Option Entry

-- Of each key that both files hold, the first has the newer entry.
abbrev pub Newer : Held → FileMetaData → FileMetaData → Type 0
Newer h f g = (k : Key) (a b : Entry) → h k f ≡ some a → h k g ≡ some b → b.seq_no < a.seq_no

-- Later files are newer.
abbrev pub NewestLast : Held → List FileMetaData → Type 0
NewestLast h [] = Unit
NewestLast h (f ∷ fs) = All (λ g. Newer h g f) fs × NewestLast h fs

-- Files of an upper level are newer.
abbrev pub Across : Held → Levels → Type 0
Across h ls =
    (i j : ℕ) (f g : FileMetaData)
    → i < j
    → In f (files_at i ls)
    → In g (files_at j ls)
    → Newer h f g

-- A key is in one file of a level at most.
abbrev pub ApartAt : Held → List FileMetaData → Type 0
ApartAt h l =
    (f g : FileMetaData) (k : Key) (a b : Entry)
    → In f l
    → In g l
    → h k f ≡ some a
    → h k g ≡ some b
    → f ≡ g

-- No two files of the levels have a number in common.
abbrev pub Numbered : Levels → Type 0
Numbered ls =
    (i j : ℕ) (f g : FileMetaData)
    → In f (files_at i ls)
    → In g (files_at j ls)
    → f.file_number ≡ g.file_number
    → (i ≡ j) × (f ≡ g)

-- The order in which files hide each other: level 0 by age, then the levels, in each of which
-- from 1 on a key is in one file at most.
pub record IsLayered (h : Held) (ls : Levels) : Type 0 where
  pub newest_last : NewestLast h (files_at 0 ls)
  pub across : Across h ls
  pub apart : (i : ℕ) → 0 < i → ApartAt h (files_at i ls)
  pub numbered : Numbered ls

abbrev pub or_no_entries : Result (List Entry) → List Entry
or_no_entries (err e) = []
or_no_entries (ok es) = es

module _ {Table : Type 0} ⦃tables : Tables Table⦄ where
  -- The entries of a table, if it is there.
  abbrev pub table_entries : Option Table → List Entry
  table_entries none = []
  table_entries (some t) = or_no_entries (tables.read_all t)

  abbrev pub held : (ℕ → Option Table) → Held
  held files k f = find k (table_entries (files f.file_number))

  -- A table that holds entries in key order, within a range of keys, and answers by them.
  pub record Sound (f : FileMetaData) (t : Table) : Type 0 where
    pub entries : List Entry
    pub read_all : tables.read_all t ≡ ok entries
    pub sorted : IsSorted entries
    pub lookup : (k : Key) → tables.lookup t k ≡ ok (answer_of (find k entries))
    pub ranged : All (λ e. Between f.smallest_key f.largest_key e.key) entries

  -- The table of a file is there, and sound.
  abbrev pub Stored : (ℕ → Option Table) → FileMetaData → Type 0
  Stored files f = (t : Table) × ((files f.file_number ≡ some t) × Sound f t)
