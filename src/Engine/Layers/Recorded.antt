-- ===== src/Engine/Layers/Recorded.antt =====
-- The sequence numbers of the tables are on disk: the manifest of src/engine.rs records a number
-- that is not below them.
use flash_store.Prelude.{
  ℕ, ◌≤◌, ◌≡◌, ap, sym, ◌∙◌, List, [], ◌∷◌, ◌++◌, some, arith, All, All-append, ltb, if◌then◌else◌,
}
use flash_store.External.{Buf, Crc32, Bincode}
use flash_store.Manifest.{VersionEdit, VersionSet, new_set, log_edit, log_and_apply, read_all_edits}
use flash_store.Manifest.Log
use flash_store.Manifest.Log.{log_edit-frame, encode_all-snoc, read_all_edits_complete}
use flash_store.Manifest.Versions.{raise_to_some-ge}
use flash_store.Sstable.Block.Search.{find}
use flash_store.Tables.{Tables}
use flash_store.Types.{Key, Entry}
use flash_store.Wal.Record.{WalRecord}
use flash_store.Engine.{Engine, table_edit}
use flash_store.Engine.Flushing.{max_seq}
use flash_store.Engine.Opening.{apply_edits}
use flash_store.Engine.Durable.{Manifested, described}
use flash_store.Engine.Durable.Flushed.{apply_edits-snoc}
use flash_store.Engine.Durable.Reopened.{edits_read}
use flash_store.Engine.Layers.{held}
use flash_store.Engine.Layers.Gathered.{find-In, All-In-entry}
use flash_store.Engine.Layers.Newest.{IsHeld}

pub log_and_apply_grows :
    (vs : VersionSet) (edit : VersionEdit)
    → vs.last_sequence ≤ (log_and_apply vs edit).last_sequence
unfolding log_and_apply
log_and_apply_grows vs edit = raise_to_some-ge edit.last_sequence vs.last_sequence

max_seq_mono : (n : ℕ) (es : List Entry) → n ≤ max_seq n es
max_seq_mono n [] = omega arith
max_seq_mono n (e ∷ es) = ground (arith, max_seq_mono (if ltb n e.seq_no then e.seq_no else n) es)

max_seq-ge : (n : ℕ) (es : List Entry) → All (λ e. e.seq_no ≤ max_seq n es) es
max_seq-ge n [] = tt
max_seq-ge n (e ∷ es) =
    let m = if ltb n e.seq_no then e.seq_no else n in
    (ground (arith, max_seq_mono m es), max_seq-ge m es)

-- The edit of a flush records its highest sequence number.
pub table_edit-records :
    (vs : VersionSet) (num size : ℕ) (e : Entry) (es : List Entry) (k : Key) (a : Entry)
    → find k (e ∷ es) ≡ some a
    → a.seq_no ≤ (log_and_apply vs (table_edit num size e es)).last_sequence
unfolding log_and_apply
table_edit-records vs num size e es k a h =
    let top =
      All-In-entry (λ x. x.seq_no ≤ max_seq 0 (e ∷ es)) (e ∷ es) a (max_seq-ge 0 (e ∷ es))
        (find-In k (e ∷ es) a h).0 in
    ground arith

module _ {Table : Type 0} ⦃tables : Tables Table⦄ ⦃buf : Buf⦄ ⦃crc : Crc32⦄
    ⦃wal_codec : Bincode WalRecord⦄ ⦃edit_codec : Bincode VersionEdit⦄ where
  -- The last sequence number that the manifest records.
  abbrev pub recorded_last : Engine Table → ℕ
  recorded_last s = (described s (read_all_edits (some s.manifest.content))).last_sequence

  abbrev pub Recorded : Engine Table → Type 0
  Recorded s =
      (k : Key) (e : Entry)
      → IsHeld (held s.files) k s.version_set.levels e
      → e.seq_no ≤ recorded_last s

  pub recorded_last-edits :
      (s : Engine Table) (edits : List VersionEdit)
      → Manifested edits s
      → recorded_last s ≡ (described s edits).last_sequence
  recorded_last-edits s edits m = ap (λ e. (described s e).last_sequence) (edits_read s edits m)

  pub recorded_last-log_edit :
      (s t : Engine Table) (edits : List VersionEdit) (edit : VersionEdit)
      → Manifested edits s
      → Log.Fits edit
      → t.manifest ≡ log_edit s.manifest edit
      → t.options ≡ s.options
      → recorded_last t ≡ (log_and_apply (described s edits) edit).last_sequence
  recorded_last-log_edit s t edits edit m fit file options =
      let (content, _, _) = log_edit-frame s.manifest edit m.at_end fit in
      let now : t.manifest.content ≡ Log.encode_all (edits ++ edit ∷ []) =
        ap (λ f. f.content) file
        ∙ content
        ∙ ap (λ c. c ++ Log.encode edit) m.content
        ∙ sym (encode_all-snoc edits edit) in
      ap (λ c. (described t (read_all_edits (some c))).last_sequence) now
      ∙ ap (λ e. (described t e).last_sequence)
          (read_all_edits_complete (edits ++ edit ∷ [])
            (All-append Log.Fits edits (edit ∷ []) m.fit (fit, tt)))
      ∙ ap (λ o. (apply_edits (new_set o.max_levels) (edits ++ edit ∷ [])).last_sequence) options
      ∙ ap (λ v. v.last_sequence) (apply_edits-snoc (new_set s.options.max_levels) edits edit)
