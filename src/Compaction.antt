-- ===== src/Compaction.antt =====
-- src/compaction/mod.rs: which files are compacted, and how their entries are merged. Sizes wrap at
-- 64 bits. An empty level 0 is not compacted, also with a trigger of 0, where the program would
-- panic.
pub mod Ranges
pub mod Picking
pub mod Picked
pub mod Merge
pub mod Output
use flash_store.Prelude.{
  ℕ, ◌+◌, ◌-◌, ◌*◌, ◌%◌, ◌^◌, Bool, true, false, not, ◌&&◌, ◌||◌, List, [], ◌∷◌, ◌++◌, Option, none,
  some, length, ltb, leb, if◌then◌else◌,
}
use flash_store.Bytes.{Bytes, key_lt}
use flash_store.BTreeMap
use flash_store.BTreeMap.{BTreeMap, values}
use flash_store.Engine.Flushing.{last_key}
use flash_store.Error.{Result, ok, err, ◌>>=◌}
use flash_store.Manifest.{FileMetaData, VersionEdit, Levels, new_edit, add_file, delete_file}
use flash_store.Tables.{Tables}
use flash_store.Types.{Key, Entry, is_tombstone}

pub record CompactionTask : Type 0 where
  pub level : ℕ
  pub input_files : List FileMetaData
  pub target_level : ℕ
  pub target_input_files : List FileMetaData

pub record Compactor : Type 0 where
  pub max_levels : ℕ
  pub base_level_size_bytes : ℕ
  pub l0_compaction_trigger : ℕ

abbrev pub new : ℕ → ℕ → Compactor
new max_levels base_level_size_bytes = record {
  max_levels = max_levels;
  base_level_size_bytes = base_level_size_bytes;
  l0_compaction_trigger = 4;
}

unfoldable pub ranges_overlap : Bytes → Bytes → Bytes → Bytes → Bool
ranges_overlap min1 max1 min2 max2 = not (key_lt max1 min2 || key_lt max2 min1)

unfoldable pub find_overlapping_files : List FileMetaData → Bytes → Bytes → List FileMetaData
find_overlapping_files [] smallest largest = []
find_overlapping_files (f ∷ fs) smallest largest =
    let rest = find_overlapping_files fs smallest largest in
    if ranges_overlap smallest largest f.smallest_key f.largest_key then f ∷ rest else rest

-- The loop over level 0 for the range of its keys.
unfoldable pub key_range : Bytes → Bytes → List FileMetaData → Bytes × Bytes
key_range min_key max_key [] = (min_key, max_key)
key_range min_key max_key (f ∷ fs) =
    key_range (if key_lt f.smallest_key min_key then f.smallest_key else min_key)
      (if key_lt max_key f.largest_key then f.largest_key else max_key) fs

-- The overlapping files of the next level, if there is one.
unfoldable pub next_overlapping : Levels → Bytes → Bytes → List FileMetaData
next_overlapping [] smallest largest = []
next_overlapping (l ∷ ls) smallest largest = find_overlapping_files l smallest largest

unfoldable pub level_size : List FileMetaData → ℕ
level_size [] = 0
level_size (f ∷ fs) = (f.file_size + level_size fs) % 2 ^ 64

-- The loop over the levels from `level` on.
unfoldable pub pick_by_size : Compactor → ℕ → Levels → Option CompactionTask
pick_by_size c level [] = none
pick_by_size c level ([] ∷ ls) = pick_by_size c (level + 1) ls
pick_by_size c level ((f ∷ fs) ∷ ls) =
    let rest = pick_by_size c (level + 1) ls in
    let limit = (c.base_level_size_bytes * (10 ^ (level - 1) % 2 ^ 64)) % 2 ^ 64 in
    if leb c.max_levels (level + 1)
    then rest
    else if ltb limit (level_size (f ∷ fs))
    then some (record {
      level = level;
      input_files = f ∷ [];
      target_level = level + 1;
      target_input_files = next_overlapping ls f.smallest_key f.largest_key;
    })
    else rest

unfoldable pub pick_compaction : Compactor → Levels → Option CompactionTask
pick_compaction c [] = none
pick_compaction c ([] ∷ ls) = if leb c.max_levels 1 then none else pick_by_size c 1 ls
pick_compaction c ((f ∷ fs) ∷ ls) =
    let (min_key, max_key) = key_range f.smallest_key f.largest_key fs in
    if leb c.max_levels 1
    then none
    else if leb c.l0_compaction_trigger (length (f ∷ fs))
    then some (record {
      level = 0;
      input_files = f ∷ fs;
      target_level = 1;
      target_input_files = next_overlapping ls min_key max_key;
    })
    else pick_by_size c 1 ls

-- One entry into `key_map`: the higher sequence number stays, and of equal ones the later entry.
unfoldable pub merge_entry : BTreeMap Entry → Entry → BTreeMap Entry
merge_entry m entry = elim (BTreeMap.get m entry.key) [
  | some existing ↦
      if leb existing.seq_no entry.seq_no then BTreeMap.insert m entry.key entry else m
  | none ↦ BTreeMap.insert m entry.key entry
]

unfoldable pub merge_entries : BTreeMap Entry → List Entry → BTreeMap Entry
merge_entries m [] = m
merge_entries m (e ∷ es) = merge_entries (merge_entry m e) es

-- Tombstones are dropped at the bottom level.
unfoldable pub final_entries : Bool → List Entry → List Entry
final_entries is_bottom_level [] = []
final_entries is_bottom_level (e ∷ es) =
    let rest = final_entries is_bottom_level es in
    if is_bottom_level && is_tombstone e.value_type then rest else e ∷ rest

unfoldable pub delete_all : ℕ → List FileMetaData → VersionEdit → VersionEdit
delete_all level [] edit = edit
delete_all level (f ∷ fs) edit = delete_all level fs (delete_file edit level f.file_number)

-- The edit, and the new table if there is one.
pub record Compacted (Table : Type 0) : Type 0 where
  pub edit : VersionEdit
  pub table : Option Table

module _ {Table : Type 0} ⦃tables : Tables Table⦄ where
  -- The entries of the tables, file after file; a missing file is passed over.
  unfoldable pub gather : (ℕ → Option Table) → List FileMetaData → Result (List Entry)
  gather files [] = ok []
  gather files (f ∷ fs) = elim (files f.file_number) [
    | none ↦ gather files fs
    | some t ↦ tables.read_all t >>= (λ es. gather files fs >>= (λ rest. ok (es ++ rest)))
  ]

  unfoldable pub write_entries : CompactionTask → ℕ → VersionEdit → List Entry → Compacted Table
  write_entries task file_num edit [] = record { edit = edit; table = none }
  write_entries task file_num edit (e ∷ es) =
      let (table, file_size) = tables.build (e ∷ es) in
      record {
        edit = add_file edit task.target_level (record {
          file_number = file_num;
          file_size = file_size;
          smallest_key = e.key;
          largest_key = last_key e.key es;
        });
        table = some table;
      }

  -- `file_num` is what `next_file_number` gives, if it is called.
  unfoldable pub run_compaction :
      Compactor → CompactionTask → (ℕ → Option Table) → ℕ → Result (Compacted Table)
  run_compaction c task files file_num =
      gather files (task.input_files ++ task.target_input_files) >>= (λ entries.
        let is_bottom_level = leb (c.max_levels - 1) task.target_level in
        let edit =
          delete_all task.target_level task.target_input_files
            (delete_all task.level task.input_files new_edit) in
        ok (
          write_entries task file_num edit
            (final_entries is_bottom_level (values (merge_entries [] entries)))))
