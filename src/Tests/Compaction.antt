-- ===== src/Tests/Compaction.antt =====
-- The results on src/compaction/mod.rs at concrete inputs.
use flash_store.Prelude.{suc, ◌<◌, ℕ, ◌≡◌, refl, true, inl, [], ◌∷◌, List, Option, some, none, In}
use flash_store.Bytes.{Bytes}
use flash_store.BTreeMap.{get}
use flash_store.Manifest.{FileMetaData, Levels}
use flash_store.Compaction
use flash_store.Compaction.{
  Compactor, CompactionTask, ranges_overlap, pick_compaction, merge_entries, final_entries,
}
use flash_store.Compaction.Picked.{Within, pick_compaction-Within}
use flash_store.Compaction.Picking.{pick_compaction_complete}
use flash_store.Manifest.Levels.{files_at}
use flash_store.Compaction.Merge.{IsNewest, merge_entries-IsNewest}
use flash_store.Types.{Entry, new_value, new_tombstone}
use flash_store.Engine.Flushing.{update_file}
use flash_store.Tests.Instances.{tables}
use flash_store.Tests.Manifest.{file_one}
use flash_store.Tests.Types.{key_a, key_b}

key_le_ab : flash_store.Bytes.key_le key_a key_b ≡ true
unfolding flash_store.Bytes.cmp
key_le_ab = refl

key_le_aa : flash_store.Bytes.key_le key_a key_a ≡ true
unfolding flash_store.Bytes.cmp
key_le_aa = refl

abbrev file_two : FileMetaData
file_two = record { file_number = 2; file_size = 10; smallest_key = key_a; largest_key = key_a }

abbrev two_levels : Levels
two_levels = (file_one ∷ file_one ∷ file_one ∷ file_one ∷ []) ∷ (file_two ∷ []) ∷ []

abbrev level_task : CompactionTask
level_task = record {
  level = 0;
  input_files = file_one ∷ file_one ∷ file_one ∷ file_one ∷ [];
  target_level = 1;
  target_input_files = file_two ∷ [];
}

level_task_picked : pick_compaction (Compaction.new 3 100) two_levels ≡ some level_task
unfolding pick_compaction Compaction.key_range Compaction.next_overlapping
    Compaction.find_overlapping_files ranges_overlap flash_store.Bytes.cmp
level_task_picked = refl

pick_compaction_complete_example : In file_two level_task.target_input_files
pick_compaction_complete_example =
    pick_compaction_complete (Compaction.new 3 100) two_levels level_task (file_two ∷ []) file_one
      file_two key_a level_task_picked refl (inl refl) (inl refl) (key_le_aa, key_le_ab)
      (key_le_aa, key_le_aa)

abbrev two_entries : List Entry
two_entries = new_value key_a key_b 3 ∷ new_tombstone key_a 5 ∷ []

merge_entries-IsNewest_example :
    IsNewest key_a two_entries (get (merge_entries [] two_entries) key_a)
merge_entries-IsNewest_example = merge_entries-IsNewest two_entries key_a

abbrev two_files : ℕ → Option (List Entry)
two_files =
    update_file (update_file (λ n. none) 1 (new_value key_a key_b 3 ∷ [])) 2
      (new_tombstone key_a 5 ∷ [])

abbrev small_task : CompactionTask
small_task = record {
  level = 0;
  input_files = file_one ∷ [];
  target_level = 1;
  target_input_files = file_two ∷ [];
}

pick_compaction-Within_example :
    (level_task.target_level ≡ suc level_task.level)
    × (level_task.target_level < 3)
    × Within level_task.input_files (files_at level_task.level two_levels)
    × Within level_task.target_input_files (files_at (suc level_task.level) two_levels)
    × (level_task.level ≡ 0 → level_task.input_files ≡ files_at 0 two_levels)
pick_compaction-Within_example =
    pick_compaction-Within (Compaction.new 3 100) two_levels level_task level_task_picked
