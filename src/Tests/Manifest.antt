-- ===== src/Tests/Manifest.antt =====
-- The results on src/manifest at concrete inputs.
use flash_store.Prelude.{inr, ◌≡◌, ◌<◌, ◌≤◌, [], ◌∷◌, ◌++◌, some, take, length, arith}
use mathlib.Core.List.{Perm}
use flash_store.Manifest.{
  FileMetaData, VersionEdit, new_edit, new_set, add_file, delete_file, log_and_apply,
  read_all_edits,
}
use flash_store.Manifest.Levels.{files_at, not_named, added_at}
use flash_store.Manifest.Log.{Fits, encode, encode_all, read_all_edits_torn}
use flash_store.Manifest.Versions.{
  IsValid, new_set-IsValid, files_at-log_and_apply, log_and_apply-IsValid,
}
use flash_store.Tests.Codecs.{edit_codec}
use flash_store.Tests.Types.{key_a, key_b}

abbrev pub file_one : FileMetaData
file_one = record { file_number = 1; file_size = 10; smallest_key = key_a; largest_key = key_b }

abbrev pub adding : VersionEdit
adding = add_file new_edit 1 file_one

abbrev deleting : VersionEdit
deleting = delete_file new_edit 1 1

adding-Fits : Fits adding
adding-Fits = omega arith

deleting-Fits : Fits deleting
deleting-Fits = omega arith

deleting-length : 6 < length (encode deleting)
deleting-length = omega arith

read_all_edits_torn_example :
    read_all_edits (some (encode_all (adding ∷ []) ++ take 6 (encode deleting))) ≡ adding ∷ []
read_all_edits_torn_example =
    read_all_edits_torn (adding ∷ []) deleting 6 (adding-Fits, tt) deleting-Fits deleting-length

files_at-log_and_apply_example :
    (length (log_and_apply (new_set 3) adding).levels ≡ length (new_set 3).levels)
    × Perm (files_at 1 (log_and_apply (new_set 3) adding).levels) (
        not_named 1 adding.deleted_files (files_at 1 (new_set 3).levels)
        ++ added_at 1 adding.new_files)
files_at-log_and_apply_example = files_at-log_and_apply (new_set 3) adding 1 (omega arith)

log_and_apply-IsValid_example :
    IsValid (log_and_apply (new_set 3) adding)
    × ((new_set 3).next_file_number ≤ (log_and_apply (new_set 3) adding).next_file_number)
    × ((new_set 3).last_sequence ≤ (log_and_apply (new_set 3) adding).last_sequence)
log_and_apply-IsValid_example =
    log_and_apply-IsValid (new_set 3) adding (inr (omega arith), tt) (new_set-IsValid 3)
