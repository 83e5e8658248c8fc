-- ===== src/Engine/Flush.antt =====
-- `flush` of src/engine.rs and the reads after it.
use flash_store.Prelude.{
  ℕ, inl, ◌<◌, ◌≡◌, refl, ap, sym, ◌∙◌, true, List, [], ◌∷◌, length, Option, none, some, arith, All,
  if_keeps,
}
use mathlib.Core.List.{reverse}
use flash_store.BTreeMap
use flash_store.BTreeMap.{BTreeMap, values}
use flash_store.Error.{Result, ok, err}
use flash_store.External.{Buf, Crc32, Bincode}
use flash_store.Manifest.{
  FileMetaData, VersionEdit, VersionSet, Levels, at_level, push_file, add_files, delete_files,
  log_and_apply,
}
use flash_store.Manifest.Versions
use flash_store.Manifest.Versions.{
  Below, HasNumber, log_and_apply-IsValid, take_file_number-IsValid,
}
use flash_store.Memtable
use flash_store.Memtable.{MemTable, answer}
use flash_store.Memtable.Size
use flash_store.Memtable.Size.{IsKeyed}
use flash_store.Sstable.Block.Search.{IsSorted, find}
use flash_store.Tables.{Tables, answer_of}
use flash_store.Types.{Key, Value, Entry}
use flash_store.Wal.Record.{WalRecord}
use flash_store.Engine.{Engine, get, flush, write_table, rewrite_wal, freeze}
use flash_store.Engine.Search.{
  or_else, search_files, search_levels, search_version, search_memtables, flat,
}
use flash_store.Engine.Flushing.{entries_of, update_file, without_memtable}
use flash_store.Engine.Entries.{entries_of-values, values-IsSorted, memtable_get-find}
use flash_store.Engine.Reads.{reverse-snoc, search_version-update}

pub without_memtable-only : (m : MemTable) → without_memtable m.id (m ∷ []) ≡ []
unfolding without_memtable
without_memtable-only m = ground arith

pub new-get : (id : ℕ) (k : Key) → Memtable.get (Memtable.new id) k ≡ none
unfolding Memtable.get BTreeMap.get
new-get id k = refl

pub log_and_apply_max :
    (vs : VersionSet) (edit : VersionEdit) → (log_and_apply vs edit).max_levels ≡ vs.max_levels
unfolding log_and_apply
log_and_apply_max vs edit = refl

or_else_assoc :
    (a b c : Result (Option (Option Value))) → or_else (or_else a b) c ≡ or_else a (or_else b c)
unfolding or_else
or_else_assoc (err e) b c = refl
or_else_assoc (ok none) b c = refl
or_else_assoc (ok (some res)) b c = refl

abbrev pub found : Result (Option (Option Value)) → Result (Option Value)
found (err e) = err e
found (ok res) = ok (flat res)

or_else-none : (r : Result (Option (Option Value))) → or_else (ok none) r ≡ r
unfolding or_else
or_else-none r = refl

module _ {Table : Type 0} ⦃tables : Tables Table⦄ where
  search_files-new :
      (files : ℕ → Option Table) (n : ℕ) (t : Table) (k : Key) (f : FileMetaData)
      (fs : List FileMetaData)
      → f.file_number ≡ n
      → search_files (update_file files n t) k (f ∷ fs)
        ≡ or_else (tables.lookup t k) (search_files (update_file files n t) k fs)
  unfolding search_files
  search_files-new files n t k f fs h = ground arith

  -- A new table of level 0 answers before all others.
  search_version-new :
      (files : ℕ → Option Table) (t : Table) (k : Key) (f : FileMetaData) (ls : Levels)
      → 0 < length ls
      → All (Below f.file_number) ls
      → search_version (update_file files f.file_number t) k (at_level 0 (push_file 0 f) ls)
        ≡ or_else (tables.lookup t k) (search_version files k ls)
  unfolding at_level push_file search_version
  search_version-new files t k f [] p h = ground arith
  search_version-new files t k f (l ∷ ls) p h =
      let n = f.file_number in
      let new = update_file files n t in
      let below = search_levels new k ls in
      ap (λ fs. or_else (search_files new k fs) below) (reverse-snoc l f)
      ∙ ap (λ r. or_else r below) (search_files-new files n t k f (reverse l) refl)
      ∙ or_else_assoc (tables.lookup t k) (search_files new k (reverse l)) below
      ∙ ap (or_else (tables.lookup t k)) (search_version-update files n t k (l ∷ ls) h)

  -- A read by its parts: the active memtable, and the tables.
  pub get-parts :
      (s : Engine Table) (k : Key)
      → s.imm_memtables ≡ []
      → get s k
        ≡ found (
            or_else
              (ok (Memtable.get s.memtable k))
              (search_version s.files k s.version_set.levels))
  unfolding get search_memtables or_else
  get-parts s k h = ground arith

  -- The memtable is well-formed, none is frozen, the files of the levels have numbers below the
  -- next one, and there is a level 0.
  pub record IsValid (s : Engine Table) : Type 0 where
    pub memtable : Memtable.Size.IsValid s.memtable
    pub none_frozen : s.imm_memtables ≡ []
    pub versions : Versions.IsValid s.version_set
    pub has_level : 0 < length s.version_set.levels

module _ {Table : Type 0} ⦃tables : Tables Table⦄ ⦃buf : Buf⦄ ⦃crc : Crc32⦄
    ⦃wal_codec : Bincode WalRecord⦄ ⦃edit_codec : Bincode VersionEdit⦄ where
  write_table-search :
      (s : Engine Table) (es : List Entry) (k : Key)
      → 0 < length s.version_set.levels
      → All (Below s.version_set.next_file_number) s.version_set.levels
      → IsSorted es
      → tables.fits es ≡ true
      → search_version (write_table s es).files k (write_table s es).version_set.levels
        ≡ or_else (ok (answer_of (find k es))) (search_version s.files k s.version_set.levels)
  unfolding write_table log_and_apply add_files delete_files or_else search_version find
  write_table-search s [] k p n h fit = refl
  write_table-search s (e ∷ es) k p n h fit =
      search_version-new s.files _ k _ s.version_set.levels p n
      ∙ ap (λ r. or_else r (search_version s.files k s.version_set.levels))
          (tables.lookup-build (e ∷ es) k h fit)

  pub write_table-memtables :
      (s : Engine Table) (es : List Entry)
      → ((write_table s es).memtable ≡ s.memtable)
        × ((write_table s es).imm_memtables ≡ s.imm_memtables)
  unfolding write_table
  write_table-memtables s [] = (refl, refl)
  write_table-memtables s (e ∷ es) = (refl, refl)

  get-rewrite_wal :
      (s : Engine Table) (id : ℕ) (k : Key)
      → without_memtable id s.imm_memtables ≡ []
      → get (rewrite_wal s id) k
        ≡ found (
            or_else
              (ok (Memtable.get s.memtable k))
              (search_version s.files k s.version_set.levels))
  unfolding rewrite_wal
  get-rewrite_wal s id k h = get-parts (rewrite_wal s id) k h

  get-frozen :
      (s : Engine Table) (k : Key)
      → IsValid s
      → tables.fits (entries_of s.memtable) ≡ true
      → get (rewrite_wal (write_table (freeze s) (entries_of s.memtable)) s.memtable.id) k ≡ get s k
  unfolding freeze
  get-frozen s k v fit =
      let m = s.memtable in
      let es = entries_of m in
      let t = write_table (freeze s) es in
      let kept = write_table-memtables (freeze s) es in
      let sorted : IsSorted es =
        rw (entries_of-values m) (values-IsSorted m.table.map v.memtable.keyed v.memtable.sorted) in
      get-rewrite_wal t m.id k (rw kept.1 (rw v.none_frozen (without_memtable-only m)))
      ∙ ap
          (λ x.
            found (or_else (ok (Memtable.get x k)) (search_version t.files k t.version_set.levels)))
          kept.0
      ∙ ap (λ x. found (or_else (ok x) (search_version t.files k t.version_set.levels)))
          (new-get s.memtable_id_seq k)
      ∙ ap found (or_else-none (search_version t.files k t.version_set.levels))
      ∙ ap found (write_table-search (freeze s) es k v.has_level v.versions.numbers sorted fit)
      ∙ ap (λ x. found (or_else (ok x) (search_version s.files k s.version_set.levels)))
          (sym (memtable_get-find m k v.memtable.keyed))
      ∙ sym (get-parts s k v.none_frozen)

  -- From a well-formed state whose memtable fits a table, a flush changes the answer of no read.
  pub flush-get :
      (s : Engine Table) (k : Key)
      → IsValid s
      → tables.fits (entries_of s.memtable) ≡ true
      → get (flush s) k ≡ get s k
  unfolding flush
  flush-get s k v fit = ground (arith, get-frozen s k v fit)

  write_table-IsValid :
      (s : Engine Table) (es : List Entry)
      → HasNumber s.version_set
      → Versions.IsValid s.version_set
      → Versions.IsValid (write_table s es).version_set
        × ((write_table s es).version_set.max_levels ≡ s.version_set.max_levels)
  unfolding write_table
  write_table-IsValid s [] room v = (take_file_number-IsValid s.version_set room v, refl)
  write_table-IsValid s (e ∷ es) room v = (
    (log_and_apply-IsValid _ _ (inl (omega arith), tt)
        (take_file_number-IsValid s.version_set room v)).0,
    log_and_apply_max _ _,
  )

  rewrite_wal-IsValid :
      (s : Engine Table) (id : ℕ)
      → Memtable.Size.IsValid s.memtable
      → without_memtable id s.imm_memtables ≡ []
      → Versions.IsValid s.version_set
      → 0 < s.version_set.max_levels
      → IsValid (rewrite_wal s id)
  unfolding rewrite_wal
  rewrite_wal-IsValid s id m n v p = record {
    memtable = m;
    none_frozen = n;
    versions = v;
    has_level = rw v.count p;
  }

  frozen-IsValid :
      (s : Engine Table)
      → HasNumber s.version_set
      → IsValid s
      → IsValid (rewrite_wal (write_table (freeze s) (entries_of s.memtable)) s.memtable.id)
  unfolding freeze
  frozen-IsValid s room v =
      let es = entries_of s.memtable in
      let kept = write_table-memtables (freeze s) es in
      let (valid, levels) = write_table-IsValid (freeze s) es room v.versions in
      rewrite_wal-IsValid (write_table (freeze s) es) s.memtable.id
        (rw kept.0 (Memtable.Size.new-IsValid s.memtable_id_seq))
        (rw kept.1 (rw v.none_frozen (without_memtable-only s.memtable))) valid
        (rw levels (rw (← v.versions.count) v.has_level))

  -- A flush keeps a well-formed state well-formed, if there is a file number left.
  pub flush-IsValid : (s : Engine Table) → HasNumber s.version_set → IsValid s → IsValid (flush s)
  unfolding flush
  flush-IsValid s room v = if_keeps IsValid _ s _ v (frozen-IsValid s room v)
