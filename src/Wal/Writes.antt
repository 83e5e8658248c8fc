-- ===== src/Wal/Writes.antt =====
-- Sequences of writes to the log, against the list of records that they leave in it.
use flash_store.Prelude.{
  ℕ, ◌^◌, ◌<◌, ◌≡◌, ◌≢◌, refl, ap, sym, ◌∙◌, List, [], ◌∷◌, ◌++◌, length, take, Bool, true, false,
  append_assoc, append-nil, All, All-append, inr,
}
use flash_store.Bytes.{Bytes}
use flash_store.Disk.{File, write_all, write_all_at_end}
use flash_store.External.{Buf, Crc32, Bincode}
use flash_store.Wal
use flash_store.Wal.{WalWriter, open_writer, sync_if, encode_all, read_all}
use flash_store.Wal.Record.{WalRecord, encode}
use flash_store.Wal.Frames.{Fits, frame}
use flash_store.Wal.Recovery.{read_all_bad_frame, read_all_complete}

-- The calls of a writer.
pub data WalOp : Type 0 where
  one : WalRecord → WalOp
  batch : List WalRecord → WalOp
  clear : WalOp

-- The records that a log holds after a call.
abbrev pub log_after : List WalRecord → WalOp → List WalRecord
log_after log (one r) = log ++ r ∷ []
log_after log (batch rs) = log ++ rs
log_after log clear = []

abbrev pub OpFits : ⦃codec : Bincode WalRecord⦄ → WalOp → Type 0
OpFits (one r) = Fits r
OpFits (batch rs) = All Fits rs
OpFits clear = Unit

abbrev pub logs_after : List WalRecord → List WalOp → List WalRecord
logs_after log [] = log
logs_after log (op ∷ ops) = logs_after (log_after log op) ops

module _ ⦃buf : Buf⦄ ⦃crc : Crc32⦄ ⦃codec : Bincode WalRecord⦄ where
  pub apply : WalWriter → WalOp → WalWriter
  apply w (one r) = Wal.append w r
  apply w (batch rs) = Wal.append_batch w rs
  apply w clear = Wal.reset w

  unfoldable pub run : WalWriter → List WalOp → WalWriter
  unfolding apply
  run w [] = w
  run w (op ∷ ops) = run (apply w op) ops

  -- The writer stands at the end of a file that holds `log`, and with `sync` all of it is durable.
  pub record Holds (log : List WalRecord) (w : WalWriter) : Type 0 where
    pub content : w.file.content ≡ encode_all log
    pub at_end : w.file.pos ≡ length w.file.content
    pub synced : w.sync ≡ true → w.file.durable ≡ w.file.content
    pub fit : All Fits log

  encode_all-append : (a b : List WalRecord) → encode_all (a ++ b) ≡ encode_all a ++ encode_all b
  encode_all-append [] b = refl
  encode_all-append (r ∷ a) b =
      ap (λ t. encode r ++ t) (encode_all-append a b)
      ∙ sym (append_assoc (encode r) (encode_all a) (encode_all b))

  sync_if_fields :
      (b : Bool) (f : File)
      → ((sync_if b f).content ≡ f.content)
        × ((sync_if b f).pos ≡ f.pos)
        × (b ≡ true → (sync_if b f).durable ≡ (sync_if b f).content)
  sync_if_fields true f = (refl, refl, λ _. refl)
  sync_if_fields false f = (refl, refl, λ e. cc)

  write-Holds :
      (log rs : List WalRecord) (w : WalWriter)
      → All Fits rs
      → Holds log w
      → Holds (log ++ rs) (record w { file = sync_if w.sync (write_all w.file (encode_all rs)) })
  write-Holds log rs w f h =
      let f' = write_all w.file (encode_all rs) in
      let (content, pos) = write_all_at_end w.file (encode_all rs) h.at_end in
      let (same, same_pos, synced) = sync_if_fields w.sync f' in
      record {
        content =
            same
            ∙ content
            ∙ ap (λ t. t ++ encode_all rs) h.content
            ∙ sym (encode_all-append log rs);
        at_end = same_pos ∙ pos ∙ ap length (sym same);
        synced = synced;
        fit = All-append Fits log rs h.fit f;
      }

  apply-Holds :
      (log : List WalRecord) (w : WalWriter) (op : WalOp)
      → OpFits op
      → Holds log w
      → Holds (log_after log op) (apply w op)
  unfolding apply Wal.append Wal.append_batch Wal.reset
  apply-Holds log w (one r) f h =
      rw (← append-nil (encode r)) (write-Holds log (r ∷ []) w (f, tt) h)
  apply-Holds log w (batch []) f h = rw append-nil h
  apply-Holds log w (batch (r ∷ rs)) f h = write-Holds log (r ∷ rs) w f h
  apply-Holds log w clear f h =
      let (same, same_pos, synced) =
        sync_if_fields w.sync (record w.file { content = []; pos = 0 }) in
      record { content = same; at_end = same_pos ∙ ap length (sym same); synced = synced; fit = tt }

  -- What each call of the writer leaves in the log.
  pub append-Holds :
      (log : List WalRecord) (w : WalWriter) (r : WalRecord)
      → Fits r
      → Holds log w
      → Holds (log ++ r ∷ []) (Wal.append w r)
  unfolding apply
  append-Holds log w r f h = apply-Holds log w (one r) f h

  pub append_batch-Holds :
      (log : List WalRecord) (w : WalWriter) (rs : List WalRecord)
      → All Fits rs
      → Holds log w
      → Holds (log ++ rs) (Wal.append_batch w rs)
  unfolding apply
  append_batch-Holds log w rs f h = apply-Holds log w (batch rs) f h

  pub reset-Holds : (log : List WalRecord) (w : WalWriter) → Holds log w → Holds [] (Wal.reset w)
  unfolding apply
  reset-Holds log w h = apply-Holds log w clear tt h

  run-Holds :
      (log : List WalRecord) (w : WalWriter) (ops : List WalOp)
      → All OpFits ops
      → Holds log w
      → Holds (logs_after log ops) (run w ops)
  unfolding run
  run-Holds log w [] f h = h
  run-Holds log w (op ∷ ops) f h =
      run-Holds (log_after log op) (apply w op) ops f.1 (apply-Holds log w op f.0 h)

  pub append_sync : (w : WalWriter) (r : WalRecord) → (Wal.append w r).sync ≡ w.sync
  unfolding Wal.append
  append_sync w r = refl

  pub append_batch_sync :
      (w : WalWriter) (rs : List WalRecord) → (Wal.append_batch w rs).sync ≡ w.sync
  unfolding Wal.append_batch
  append_batch_sync w [] = refl
  append_batch_sync w (r ∷ rs) = refl

  run-sync : (w : WalWriter) (ops : List WalOp) → (run w ops).sync ≡ w.sync
  unfolding run apply Wal.append Wal.append_batch Wal.reset
  run-sync w [] = refl
  run-sync w (one r ∷ ops) = run-sync (Wal.append w r) ops
  run-sync w (batch [] ∷ ops) = run-sync w ops
  run-sync w (batch (r ∷ rs) ∷ ops) = run-sync (Wal.append_batch w (r ∷ rs)) ops
  run-sync w (clear ∷ ops) = run-sync (Wal.reset w) ops

  pub empty-Holds : (sync : Bool) → Holds [] (open_writer [] sync)
  unfolding open_writer
  empty-Holds sync = record { content = refl; at_end = refl; synced = λ _. refl; fit = tt }

  -- From an empty log, after any sequence of `append`, `append_batch` and `reset` on records
  -- below 4 GiB, `read_all` reads the records written since the last reset, in order; and with
  -- `sync` the whole content of the log is durable.
  pub read_all-run :
      (sync : Bool) (ops : List WalOp)
      → All OpFits ops
      → (read_all (run (open_writer [] sync) ops).file.content ≡ logs_after [] ops)
        × ((run (open_writer [] true) ops).file.durable
            ≡ (run (open_writer [] true) ops).file.content)
  read_all-run sync ops f =
      let h = run-Holds [] (open_writer [] sync) ops f (empty-Holds sync) in
      let d = run-Holds [] (open_writer [] true) ops f (empty-Holds true) in
      (
        ap read_all h.content ∙ read_all_complete (logs_after [] ops) h.fit,
        d.synced (run-sync (open_writer [] true) ops ∙ (unfold open_writer in refl)),
      )

  content-append_batch :
      (w : WalWriter) (rs : List WalRecord)
      → w.file.pos ≡ length w.file.content
      → (Wal.append_batch w rs).file.content ≡ w.file.content ++ encode_all rs
  unfolding Wal.append_batch
  content-append_batch w [] h = sym (append-nil w.file.content)
  content-append_batch w (r ∷ rs) h =
      let d = encode_all (r ∷ rs) in
      (sync_if_fields w.sync (write_all w.file d)).0 ∙ (write_all_at_end w.file d h).0

  -- A log is opened behind whatever bytes it holds. If these end in a torn frame, and the first
  -- bytes of a new batch complete it to a payload with another checksum, then only the records
  -- before the torn frame are read back, and none of the new batch.
  pub append_batch_after_torn :
      (rs new : List WalRecord) (c n : ℕ) (torn : Bytes) (sync : Bool)
      → All Fits rs
      → c < 2 ^ 32
      → n < 2 ^ 32
      → crc.hash (take n (torn ++ encode_all new)) ≢ c
      → read_all
          (Wal.append_batch (open_writer (encode_all rs ++ frame c n torn) sync) new).file.content
        ≡ rs
  append_batch_after_torn rs new c n torn sync f hc hn other =
      let old = encode_all rs ++ frame c n torn in
      let written : (Wal.append_batch (open_writer old sync) new).file.content
          ≡ old ++ encode_all new =
        content-append_batch (open_writer old sync) new (unfold open_writer in refl)
        ∙ (unfold open_writer in refl) in
      ap read_all (written ∙ append_assoc (encode_all rs) (frame c n torn) (encode_all new))
      ∙ read_all_bad_frame rs c n (torn ++ encode_all new) f hc hn (inr other)
