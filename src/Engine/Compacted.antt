-- ===== src/Engine/Compacted.antt =====
-- What `compact` of src/engine.rs keeps: a well-formed state, and its description on disk.
use flash_store.Prelude.{
  ◌^◌, ◌<◌, ◌+◌, ℕ, zero, suc, ◌≡◌, refl, ap, sym, ◌∙◌, List, [], ◌∷◌, ◌++◌, Option, none, some,
  arith, All-append, subst,
}
use flash_store.Compaction
use flash_store.Compaction.{
  Compactor, CompactionTask, Compacted, pick_compaction, run_compaction, delete_all, write_entries,
  gather, final_entries, merge_entries,
}
use flash_store.Error.{Result, ok, err, ◌>>=◌}
use flash_store.External.{Buf, Crc32, Bincode}
use flash_store.Manifest.{FileMetaData, VersionEdit, VersionSet, new_set, new_edit, log_and_apply}
use flash_store.Manifest.Log
use flash_store.Manifest.Log.{log_edit-frame, encode_all-snoc}
use flash_store.Manifest.Versions
use flash_store.Manifest.Versions.{
  log_and_apply-IsValid, take_file_number-IsValid, HasNumber, NumbersFit, NumbersFit-Room,
}
use flash_store.Tables.{Tables}
use flash_store.Types.{Entry}
use flash_store.Wal.Record.{WalRecord}
use flash_store.Engine.{Engine}
use flash_store.Engine.Compacting.{apply_compacted, compact_loop, compact, numbered}
use flash_store.Engine.Flush.{IsValid, log_and_apply_max}
use flash_store.Memtable
use flash_store.Engine.Opening.{replay}
use flash_store.Engine.Durable.{Persisted, described, SeqUpTo}
use flash_store.Engine.Durable.Flushed.{apply_edits-snoc, log_and_apply_levels}

-- What a property of all values says of a result.
bound_ok {ℓ κ} :
    {A : Type ℓ} {B : Type κ} (P : B → Type 0) (o : Result A) (f : A → B) (b : B)
    → ((a : A) → P (f a))
    → (o >>= (λ a. ok (f a))) ≡ ok b
    → P b
bound_ok P (err e) f b h eq = absurd cc
bound_ok P (ok a) f b h eq = let e : f a ≡ b = cc in subst P e (h a)

-- A condition on what is there.
abbrev pub IfSome : {A : Type 0} → (A → Type 0) → Option A → Type 0
IfSome P none = Unit
IfSome P (some a) = P a

abbrev pub IfOk : {A : Type 0} → (A → Type 0) → Result A → Type 0
IfOk P (err e) = Unit
IfOk P (ok a) = P a

-- The two branches of a pass.
pub pick_cases :
    {A E : Type 0} (P : E → Type 0) (o : Option A) (next : A → Result E) (G : A → Type 0) (s t : E)
    → (elim o [ none ↦ ok s | some a ↦ next a ]) ≡ ok t
    → IfSome G o
    → P s
    → ((a : A) → next a ≡ ok t → G a → P t)
    → P t
pick_cases P none next G s t eq fit p k = let e : s ≡ t = cc in subst P e p
pick_cases P (some a) next G s t eq fit p k = k a eq fit

pub run_cases :
    {A E : Type 0} (P : E → Type 0) (o : Result A) (next : A → Result E) (G : A → Type 0) (t : E)
    → (o >>= next) ≡ ok t
    → IfOk G o
    → ((a : A) → o ≡ ok a → next a ≡ ok t → G a → P t)
    → P t
run_cases P (err e) next G t eq fit k = absurd cc
run_cases P (ok a) next G t eq fit k = k a refl eq fit

pub numbered-keeps :
    {A : Type 0} (vs : VersionSet) (t : Option A)
    → (HasNumber vs → Versions.IsValid vs → Versions.IsValid (numbered vs t))
      × ((numbered vs t).levels ≡ vs.levels)
      × ((numbered vs t).max_levels ≡ vs.max_levels)
      × ((numbered vs t).last_sequence ≡ vs.last_sequence)
numbered-keeps vs none = (λ _ v. v, refl, refl, refl)
numbered-keeps vs (some t) = (take_file_number-IsValid vs, refl, refl, refl)

delete_all-last :
    (level : ℕ) (fs : List FileMetaData) (edit : VersionEdit)
    → (delete_all level fs edit).last_sequence ≡ edit.last_sequence
unfolding delete_all
delete_all-last level [] edit = refl
delete_all-last level (f ∷ fs) edit = delete_all-last level fs _

pub log_and_apply-last :
    (vs : VersionSet) (edit : VersionEdit)
    → edit.last_sequence ≡ none
    → (log_and_apply vs edit).last_sequence ≡ vs.last_sequence
unfolding log_and_apply
log_and_apply-last vs edit h = rw h refl

pub delete_all-new :
    (level : ℕ) (fs : List FileMetaData) (edit : VersionEdit)
    → (delete_all level fs edit).new_files ≡ edit.new_files
unfolding delete_all
delete_all-new level [] edit = refl
delete_all-new level (f ∷ fs) edit = delete_all-new level fs _

write_entries-new :
    (Table : Type 0) ⦃tables : Tables Table⦄ (task : CompactionTask) (n : ℕ) (edit : VersionEdit)
    (es : List Entry)
    → n + 1 < 2 ^ 64
    → edit.new_files ≡ []
    → NumbersFit (write_entries {Table = Table} task n edit es).edit
unfolding write_entries
write_entries-new Table task n edit [] room h = rw h tt
write_entries-new Table task n edit (e ∷ es) room h = rw h (room, tt)

write_entries-last :
    (Table : Type 0) ⦃tables : Tables Table⦄ (task : CompactionTask) (n : ℕ) (edit : VersionEdit)
    (es : List Entry)
    → (write_entries {Table = Table} task n edit es).edit.last_sequence ≡ edit.last_sequence
unfolding write_entries
write_entries-last Table task n edit [] = refl
write_entries-last Table task n edit (e ∷ es) = refl

module _ {Table : Type 0} ⦃tables : Tables Table⦄ where
  -- No edit of a compaction sets the last sequence number.
  pub run_compaction-last :
      (c : Compactor) (task : CompactionTask) (files : ℕ → Option Table) (n : ℕ)
      (r : Compacted Table)
      → run_compaction c task files n ≡ ok r
      → r.edit.last_sequence ≡ none
  unfolding run_compaction
  run_compaction-last c task files n r h =
      let edit =
        delete_all task.target_level task.target_input_files
          (delete_all task.level task.input_files new_edit) in
      bound_ok (λ (x : Compacted Table). x.edit.last_sequence ≡ none)
        (gather files (task.input_files ++ task.target_input_files)) _ r
        (λ entries.
          write_entries-last Table task n edit _
          ∙ delete_all-last task.target_level task.target_input_files _
          ∙ delete_all-last task.level task.input_files new_edit)
        h

  -- The new file of a compaction has the number that it is given.
  pub run_compaction-NumbersFit :
      (c : Compactor) (task : CompactionTask) (files : ℕ → Option Table) (n : ℕ)
      (r : Compacted Table)
      → n + 1 < 2 ^ 64
      → run_compaction c task files n ≡ ok r
      → NumbersFit r.edit
  unfolding run_compaction
  run_compaction-NumbersFit c task files n r room h =
      bound_ok (λ (x : Compacted Table). NumbersFit x.edit)
        (gather files (task.input_files ++ task.target_input_files)) _ r
        (λ entries. write_entries-new Table task n _ _ room (
          delete_all-new task.target_level task.target_input_files _
          ∙ delete_all-new task.level task.input_files new_edit))
        h

module _ {Table : Type 0} ⦃tables : Tables Table⦄ ⦃buf : Buf⦄ ⦃crc : Crc32⦄
    ⦃wal_codec : Bincode WalRecord⦄ ⦃edit_codec : Bincode VersionEdit⦄ where
  pub apply_compacted-IsValid :
      (s : Engine Table) (r : Compacted Table)
      → HasNumber s.version_set
      → NumbersFit r.edit
      → IsValid s
      → IsValid (apply_compacted s r)
  unfolding apply_compacted
  apply_compacted-IsValid s r room fit v =
      let (valid, _, max, _) = numbered-keeps s.version_set r.table in
      let versions =
        (log_and_apply-IsValid (numbered s.version_set r.table) r.edit
          (NumbersFit-Room (numbered s.version_set r.table).next_file_number r.edit fit)
          (valid room v.versions)).0 in
      record {
        memtable = v.memtable;
        none_frozen = v.none_frozen;
        versions = versions;
        has_level =
            rw versions.count (rw (log_and_apply_max, max) (rw (← v.versions.count) v.has_level));
      }

  pub apply_compacted-Persisted :
      (s : Engine Table) (r : Compacted Table)
      → Log.Fits r.edit
      → NumbersFit r.edit
      → r.edit.last_sequence ≡ none
      → Persisted s
      → Persisted (apply_compacted s r)
  unfolding apply_compacted
  apply_compacted-Persisted s r fit numbers none_set p =
      let m = p.manifest in
      let vs = numbered s.version_set r.table in
      let (_, levels, max, last) = numbered-keeps s.version_set r.table in
      let (content, durable, at_end) = log_edit-frame s.manifest r.edit m.at_end fit in
      let new = apply_edits-snoc (new_set s.options.max_levels) p.edits r.edit in
      let same =
        ap (λ v. v.last_sequence) new ∙ log_and_apply-last (described s p.edits) r.edit none_set in
      let kept = log_and_apply-last vs r.edit none_set ∙ last in
      record {
        edits = p.edits ++ r.edit ∷ [];
        manifest = record {
          content =
              content
              ∙ ap (λ c. c ++ Log.encode r.edit) m.content
              ∙ sym (encode_all-snoc p.edits r.edit);
          durable = durable ∙ sym content;
          at_end = at_end;
          fit = All-append Log.Fits p.edits (r.edit ∷ []) m.fit (fit, tt);
          numbers = All-append NumbersFit p.edits (r.edit ∷ []) m.numbers (numbers, tt);
          max_levels = log_and_apply_max vs r.edit ∙ max ∙ m.max_levels;
          levels =
              log_and_apply_levels vs (described s p.edits) r.edit (levels ∙ m.levels)
              ∙ ap (λ v. v.levels) (sym new);
          last = omega (arith, same, kept, m.last);
        };
        records = p.records;
        log = record {
          holds = p.log.holds;
          sync = p.log.sync;
          memtable =
              p.log.memtable ∙ ap (λ n. (replay n (Memtable.new 0) p.records).table) (sym same);
          bounded = subst (λ n. SeqUpTo n s.memtable.table.map) (sym kept) p.log.bounded;
        };
      }

  -- Each of the passes has a file number left, and its edit is below 4 GiB.
  abbrev pub PassesFit : ℕ → Compactor → Engine Table → Type 0
  PassesFit zero c s = Unit
  PassesFit (suc passes) c s =
      IfSome
        (λ task.
          IfOk
            (λ (r : Compacted Table).
              (HasNumber s.version_set × Log.Fits r.edit)
              × PassesFit passes c (apply_compacted s r))
            (run_compaction c task s.files s.version_set.next_file_number))
        (pick_compaction c s.version_set.levels)

  compact_loop-keeps :
      (P : Engine Table → Type 0)
      → ((s : Engine Table) (r : Compacted Table)
          → HasNumber s.version_set
          → Log.Fits r.edit
          → NumbersFit r.edit
          → r.edit.last_sequence ≡ none
          → P s
          → P (apply_compacted s r))
      → (passes : ℕ) (c : Compactor) (s t : Engine Table) → compact_loop passes c s ≡ ok t
      → PassesFit passes c s
      → P s
      → P t
  unfolding compact_loop
  compact_loop-keeps P keeps zero c s t h fit p = let e : s ≡ t = cc in subst P e p
  compact_loop-keeps P keeps (suc passes) c s t h fit p =
      pick_cases P (pick_compaction c s.version_set.levels) _ _ s t h fit p (λ task h fit.
        run_cases P (run_compaction c task s.files s.version_set.next_file_number) _ _ t h fit
          (λ r run h fit. compact_loop-keeps P keeps passes c (apply_compacted s r) t h fit.1 (
            keeps s r fit.0.0 fit.0.1
              (run_compaction-NumbersFit c task s.files s.version_set.next_file_number r fit.0.0
                run)
              (run_compaction-last c task s.files s.version_set.next_file_number r run) p)))

  -- The passes that `compact` may make.
  abbrev pub CompactFits : Engine Table → Type 0
  CompactFits s =
      PassesFit 100 (Compaction.new s.options.max_levels s.options.base_level_size_bytes) s

  -- If `compact` succeeds on a well-formed state that its directory describes, with edits below 4
  -- GiB and a file number below 2^64 - 1 left for each pass: the new state is well-formed, its
  -- directory describes it, and its memtable and its log are as before.
  pub compact-keeps :
      (s t : Engine Table)
      → compact s ≡ ok t
      → CompactFits s
      → IsValid s
      → Persisted s
      → IsValid t × Persisted t × (t.memtable ≡ s.memtable) × (t.wal ≡ s.wal)
  unfolding compact apply_compacted
  compact-keeps s t h fit v p =
      compact_loop-keeps
        (λ x. IsValid x × Persisted x × (x.memtable ≡ s.memtable) × (x.wal ≡ s.wal))
        (λ x r room small numbers last (valid, kept, memtable, wal). (
          apply_compacted-IsValid x r room numbers valid,
          apply_compacted-Persisted x r small numbers last kept,
          memtable,
          wal,
        ))
        100 (Compaction.new s.options.max_levels s.options.base_level_size_bytes) s t h fit
        (v, p, refl, refl)
