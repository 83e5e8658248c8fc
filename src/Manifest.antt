-- ===== src/Manifest.antt =====
-- src/manifest/version.rs and src/manifest/mod.rs: version edits, the manifest file, and the set of
-- files that the edits describe. The `u64` counters wrap around.
pub mod Log
pub mod Levels
pub mod Members
pub mod Versions
use flash_store.Prelude.{
  ℕ, zero, suc, ◌+◌, ◌%◌, ◌^◌, ◌++◌, Bool, not, List, [], ◌∷◌, Option, none, some, length, take,
  drop, replicate, ltb, leb, ◌==◌, if◌then◌else◌,
}
use flash_store.Bytes.{Bytes, key_le}
use flash_store.Disk.{File, write_all, sync_all}
use flash_store.External.{Bincode, to_le_bytes, from_le_bytes}
use flash_store.Types.{Key}

pub record FileMetaData : Type 0 where
  pub file_number : ℕ
  pub file_size : ℕ
  pub smallest_key : Key
  pub largest_key : Key

pub record VersionEdit : Type 0 where
  pub next_file_number : Option ℕ
  pub last_sequence : Option ℕ
  pub new_files : List (ℕ × FileMetaData)
  pub deleted_files : List (ℕ × ℕ)

abbrev pub new_edit : VersionEdit
new_edit = record {
  next_file_number = none;
  last_sequence = none;
  new_files = [];
  deleted_files = [];
}

abbrev pub add_file : VersionEdit → ℕ → FileMetaData → VersionEdit
add_file e level meta = record e { new_files = e.new_files ++ (level, meta) ∷ [] }

abbrev pub delete_file : VersionEdit → ℕ → ℕ → VersionEdit
delete_file e level file_number = record e {
  deleted_files = e.deleted_files ++ (level, file_number) ∷ [];
}

module _ ⦃codec : Bincode VersionEdit⦄ where
  -- `log_edit` on a file opened for appending: a length and the encoded edit.
  unfoldable pub log_edit : File → VersionEdit → File
  log_edit f edit =
      let encoded = codec.serialize edit in
      sync_all (write_all (write_all f (to_le_bytes 4 (length encoded % 2 ^ 32))) encoded)

  -- The `while` loop of `read_all_edits`, with fuel.
  unfoldable pub read_edits_loop : ℕ → Bytes → ℕ → List VersionEdit
  read_edits_loop zero b offset = []
  read_edits_loop (suc fuel) b offset =
      let len = from_le_bytes (take 4 (drop offset b)) in
      let rest = read_edits_loop fuel b (offset + 4 + len) in
      if leb (offset + 4) (length b)
      then (if ltb (length b) (offset + 4 + len)
          then []
          else elim (codec.deserialize (take len (drop (offset + 4) b))) [
            | none ↦ []
            | some edit ↦ edit ∷ rest
          ])
      else []

  -- A missing file reads as no edits.
  unfoldable pub read_all_edits : Option Bytes → List VersionEdit
  read_all_edits none = []
  read_all_edits (some b) = read_edits_loop (length b) b 0

abbrev pub Levels : Type 0
Levels = List (List FileMetaData)

pub record VersionSet : Type 0 where
  pub levels : Levels
  pub next_file_number : ℕ
  pub last_sequence : ℕ
  pub max_levels : ℕ

abbrev pub new_set : ℕ → VersionSet
new_set max_levels = record {
  levels = replicate max_levels [];
  next_file_number = 1;
  last_sequence = 0;
  max_levels = max_levels;
}

-- `next_file_number` and `next_sequence`: the new set, and the number handed out.
abbrev pub take_file_number : VersionSet → VersionSet × ℕ
take_file_number vs =
    (record vs { next_file_number = (vs.next_file_number + 1) % 2 ^ 64 }, vs.next_file_number)

abbrev pub next_sequence : VersionSet → VersionSet × ℕ
next_sequence vs =
    let seq = (vs.last_sequence + 1) % 2 ^ 64 in (record vs { last_sequence = seq }, seq)

-- `if level < levels.len() { … levels[level] … }`
unfoldable pub at_level : ℕ → (List FileMetaData → List FileMetaData) → Levels → Levels
at_level i f [] = []
at_level zero f (l ∷ ls) = f l ∷ ls
at_level (suc i) f (l ∷ ls) = l ∷ at_level i f ls

-- `retain(|f| f.file_number != file_number)`
unfoldable pub without_file : ℕ → List FileMetaData → List FileMetaData
without_file n [] = []
without_file n (f ∷ fs) =
    let rest = without_file n fs in if f.file_number == n then rest else f ∷ rest

unfoldable pub delete_files : List (ℕ × ℕ) → Levels → Levels
delete_files [] ls = ls
delete_files ((level, n) ∷ ds) ls = delete_files ds (at_level level (without_file n) ls)

-- The stable sort by smallest key.
unfoldable pub insert_by_smallest : FileMetaData → List FileMetaData → List FileMetaData
insert_by_smallest x [] = x ∷ []
insert_by_smallest x (y ∷ ys) =
    if key_le x.smallest_key y.smallest_key then x ∷ y ∷ ys else y ∷ insert_by_smallest x ys

unfoldable pub sort_by_smallest : List FileMetaData → List FileMetaData
unfolding insert_by_smallest
sort_by_smallest [] = []
sort_by_smallest (x ∷ xs) = insert_by_smallest x (sort_by_smallest xs)

-- `push`, and the sort above level 0.
unfoldable pub push_file : ℕ → FileMetaData → List FileMetaData → List FileMetaData
unfolding sort_by_smallest
push_file zero meta fs = fs ++ meta ∷ []
push_file (suc level) meta fs = sort_by_smallest (fs ++ meta ∷ [])

unfoldable pub add_files : List (ℕ × FileMetaData) → Levels → Levels
add_files [] ls = ls
add_files ((level, meta) ∷ ms) ls = add_files ms (at_level level (push_file level meta) ls)

abbrev pub raise_to : ℕ → ℕ → ℕ
raise_to current n = if ltb current n then n else current

-- `if file_number >= next { next = file_number + 1 }`
abbrev pub raise_over : ℕ → ℕ → ℕ
raise_over next n = if leb next n then (n + 1) % 2 ^ 64 else next

-- The counter after the loop over the new files: those of a level out of range do not count.
unfoldable pub raise_next : List (ℕ × FileMetaData) → ℕ → ℕ → ℕ
raise_next [] levels next = next
raise_next ((level, meta) ∷ ms) levels next =
    raise_next ms levels (if ltb level levels then raise_over next meta.file_number else next)

abbrev pub raise_to_some : Option ℕ → ℕ → ℕ
raise_to_some none current = current
raise_to_some (some n) current = raise_to current n

unfoldable pub log_and_apply : VersionSet → VersionEdit → VersionSet
log_and_apply vs edit = record vs {
  levels = add_files edit.new_files (delete_files edit.deleted_files vs.levels);
  next_file_number =
      raise_to_some edit.next_file_number
        (raise_next edit.new_files (length vs.levels) vs.next_file_number);
  last_sequence = raise_to_some edit.last_sequence vs.last_sequence;
}
