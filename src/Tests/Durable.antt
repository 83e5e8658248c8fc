-- ===== src/Tests/Durable.antt =====
-- The results on whole runs of src/engine.rs at concrete inputs.
use flash_store.Prelude.{
  All, ◌≡◌, ◌++◌, Option, some, refl, true, [], ◌∷◌, List, none, take, arith, ltb→lt, subst, sym,
  ap,
}
use flash_store.Batch.{BatchOp}
use flash_store.BTreeMap
use flash_store.Config.{Options, default_options}
use flash_store.Error.{Result, ok, err}
use flash_store.Compaction.{
  pick_compaction, run_compaction, gather, merge_entries, merge_entry, final_entries, write_entries,
  delete_all, next_overlapping, key_range, pick_by_size, level_size, find_overlapping_files,
}
use flash_store.Manifest.{without_file, raise_next}
use flash_store.Engine.Compacting.{compact, compact_loop, apply_compacted, remove_files}
use flash_store.Engine.Compacted.{CompactFits, compact-keeps}
use flash_store.Manifest.Versions.{NumbersFit}
use flash_store.Disk.{write_all}
use flash_store.Engine.Flushing.{sort_by_seq, without_memtable}
use flash_store.Manifest.{
  read_all_edits, read_edits_loop, log_edit, log_and_apply, add_files, delete_files, at_level,
  push_file, raise_next,
}
use flash_store.Wal
use flash_store.Memtable
use flash_store.Memtable.Skiplist
use flash_store.Bytes
use flash_store.Types
use flash_store.Types.{Key, Value, Entry}
use flash_store.Wal.Record.{encode}
use flash_store.Engine.{
  Engine, get, put, delete, write_batch, flush, maybe_schedule_flush, write_table, rewrite_wal,
  freeze,
}
use flash_store.Engine.Opening.{open_engine, recovered, recovered-IsValid, replay}
use flash_store.Engine.Durable.Commands.{Command, run, updates, RunFits}
use flash_store.Engine.Durable.Fresh.{
  fresh, fresh-Persisted, fresh-InOrder, fresh-get, new_directory, open_new-run,
}
use flash_store.Engine.Durable.{Persisted}
use flash_store.Engine.Durable.Run.{run-get}
use flash_store.Engine.Durable.Reopened.{reopened, get-reopened_torn}
use flash_store.Engine.Flush.{IsValid}
use flash_store.BTreeMap.Laws.{IsSorted}
use flash_store.Engine.Scan.{scan}
use flash_store.Engine.Layers.Scanned.{scan-get, in_bounds}
use flash_store.Engine.Layers.Steps.{InOrder}
use flash_store.Engine.Layers.Durable
use flash_store.Engine.Layers.Durable.{compact-durable}
use flash_store.Tests.Codecs.{wal_codec, edit_codec}
use flash_store.Tests.Instances.{buf, crc, tables}
use flash_store.Tests.Wal.{second_record, second-Fits, second_length}
use flash_store.Tests.Types.{key_a, key_b}

abbrev synced : Options
synced = record default_options { sync_wal = true; create_if_missing = true }

abbrev some_commands : List Command
some_commands =
    Command.put key_a key_b
    ∷ Command.write (record { ops = BatchOp.delete key_a ∷ BatchOp.put key_b key_a ∷ [] })
    ∷ Command.flush_now
    ∷ Command.restart
    ∷ Command.delete key_b
    ∷ Command.lose_power
    ∷ []

some_commands-RunFits : RunFits (fresh (List Entry) synced) some_commands
unfolding raise_next put delete write_batch flush maybe_schedule_flush write_table rewrite_wal
    freeze recovered replay Skiplist.drain Skiplist.next Skiplist.item Skiplist.insert Memtable.put
    Memtable.delete Memtable.insert_entry Memtable.update_size_bytes BTreeMap.insert BTreeMap.get
    Wal.append Wal.append_batch Wal.reset Wal.open_writer Wal.read_all Wal.read_loop read_all_edits
    read_edits_loop log_edit log_and_apply write_all sort_by_seq without_memtable
    Types.estimated_size Bytes.cmp
some_commands-RunFits = (
  ((ltb→lt _ _ refl, omega arith), (refl, (ltb→lt _ _ refl, ltb→lt _ _ refl))),
  (
    (
      (ltb→lt _ _ refl, (omega arith, (omega arith, tt))),
      (refl, (ltb→lt _ _ refl, ltb→lt _ _ refl)),
    ),
    (
      (refl, (ltb→lt _ _ refl, ltb→lt _ _ refl)),
      (
        tt,
        (((ltb→lt _ _ refl, omega arith), (refl, (ltb→lt _ _ refl, ltb→lt _ _ refl))), (refl, tt)),
      ),
    ),
  ),
)

abbrev new_engine : Engine (List Entry)
new_engine = fresh (List Entry) synced

no_edits : All NumbersFit (read_all_edits none)
unfolding read_all_edits
no_edits = tt

new_engine-IsValid : IsValid new_engine
new_engine-IsValid = recovered-IsValid (List Entry) synced new_directory (omega arith) no_edits

run-get_example :
    (t : Engine (List Entry)) × ((run new_engine some_commands ≡ ok t)
      × IsValid t
      × Persisted t
      × InOrder t
      × ((j : Key) → get t j ≡ ok (updates (λ _. none) some_commands j)))
run-get_example =
    run-get new_engine (λ _. none) some_commands new_engine-IsValid
      (fresh-Persisted (List Entry) synced) (fresh-InOrder (List Entry) synced)
      (fresh-get (List Entry) synced) some_commands-RunFits

abbrev or_same : Engine (List Entry) → Result (Engine (List Entry)) → Engine (List Entry)
or_same s (err e) = s
or_same s (ok t) = t

after_run-Good :
    (cs : List Command)
    → RunFits new_engine cs
    → let t = or_same new_engine (run new_engine cs) in IsValid t × Persisted t × InOrder t
after_run-Good cs fits =
    let (t, (e, v, p, o, _)) =
      run-get new_engine (λ _. none) cs new_engine-IsValid (fresh-Persisted (List Entry) synced)
        (fresh-InOrder (List Entry) synced) (fresh-get (List Entry) synced) fits in
    subst (λ x. IsValid x × Persisted x × InOrder x) (sym (ap (or_same new_engine) e)) (v, p, o)

abbrev old_engine : Engine (List Entry)
old_engine = or_same new_engine (run new_engine some_commands)

old_engine-Good : IsValid old_engine × Persisted old_engine × InOrder old_engine
old_engine-Good = after_run-Good some_commands some_commands-RunFits

get-reopened_torn_example :
    get (reopened old_engine (old_engine.wal.file.content ++ take 9 (encode second_record))) key_b
    ≡ get old_engine key_b
get-reopened_torn_example =
    get-reopened_torn old_engine second_record 9 key_b old_engine-Good.0 old_engine-Good.1
      second-Fits second_length

-- Four flushes, after which a compaction of level 0 is due.
abbrev four_flushes : List Command
four_flushes =
    Command.put key_a key_b
    ∷ Command.flush_now
    ∷ Command.put key_b key_a
    ∷ Command.flush_now
    ∷ Command.delete key_a
    ∷ Command.flush_now
    ∷ Command.put key_b key_b
    ∷ Command.flush_now
    ∷ []

four_flushes-RunFits : RunFits new_engine four_flushes
unfolding raise_next put delete write_batch flush maybe_schedule_flush write_table rewrite_wal
    freeze recovered replay Skiplist.drain Skiplist.next Skiplist.item Skiplist.insert Memtable.put
    Memtable.delete Memtable.insert_entry Memtable.update_size_bytes BTreeMap.insert BTreeMap.get
    Wal.append Wal.append_batch Wal.reset Wal.open_writer Wal.read_all Wal.read_loop read_all_edits
    read_edits_loop log_edit log_and_apply write_all sort_by_seq without_memtable
    Types.estimated_size Bytes.cmp add_files delete_files at_level push_file
four_flushes-RunFits = (
  ((ltb→lt _ _ refl, omega arith), (refl, (ltb→lt _ _ refl, ltb→lt _ _ refl))),
  (
    (refl, (ltb→lt _ _ refl, ltb→lt _ _ refl)),
    (
      ((ltb→lt _ _ refl, omega arith), (refl, (ltb→lt _ _ refl, ltb→lt _ _ refl))),
      (
        (refl, (ltb→lt _ _ refl, ltb→lt _ _ refl)),
        (
          ((ltb→lt _ _ refl, omega arith), (refl, (ltb→lt _ _ refl, ltb→lt _ _ refl))),
          (
            (refl, (ltb→lt _ _ refl, ltb→lt _ _ refl)),
            (
              ((ltb→lt _ _ refl, omega arith), (refl, (ltb→lt _ _ refl, ltb→lt _ _ refl))),
              ((refl, (ltb→lt _ _ refl, ltb→lt _ _ refl)), tt),
            ),
          ),
        ),
      ),
    ),
  ),
)

abbrev busy_engine : Engine (List Entry)
busy_engine = or_same new_engine (run new_engine four_flushes)

busy_engine-Good : IsValid busy_engine × Persisted busy_engine × InOrder busy_engine
busy_engine-Good = after_run-Good four_flushes four_flushes-RunFits

abbrev compacted_engine : Engine (List Entry)
compacted_engine = or_same busy_engine (compact busy_engine)

busy_engine_compacts : compact busy_engine ≡ ok compacted_engine
unfolding put delete write_batch flush maybe_schedule_flush write_table rewrite_wal freeze recovered
    replay Skiplist.drain Skiplist.next Skiplist.item Skiplist.insert Memtable.put Memtable.delete
    Memtable.insert_entry Memtable.update_size_bytes BTreeMap.insert BTreeMap.get Wal.append
    Wal.append_batch Wal.reset Wal.open_writer Wal.read_all Wal.read_loop read_all_edits
    read_edits_loop log_edit log_and_apply write_all sort_by_seq without_memtable
    Types.estimated_size Bytes.cmp add_files delete_files at_level push_file compact compact_loop
    apply_compacted remove_files pick_compaction run_compaction gather merge_entries merge_entry
    final_entries write_entries delete_all next_overlapping key_range pick_by_size level_size
    without_file raise_next find_overlapping_files
busy_engine_compacts = refl

busy_engine-CompactFits : CompactFits busy_engine
unfolding put delete write_batch flush maybe_schedule_flush write_table rewrite_wal freeze recovered
    replay Skiplist.drain Skiplist.next Skiplist.item Skiplist.insert Memtable.put Memtable.delete
    Memtable.insert_entry Memtable.update_size_bytes BTreeMap.insert BTreeMap.get Wal.append
    Wal.append_batch Wal.reset Wal.open_writer Wal.read_all Wal.read_loop read_all_edits
    read_edits_loop log_edit log_and_apply write_all sort_by_seq without_memtable
    Types.estimated_size Bytes.cmp add_files delete_files at_level push_file compact compact_loop
    apply_compacted remove_files pick_compaction run_compaction gather merge_entries merge_entry
    final_entries write_entries delete_all next_overlapping key_range pick_by_size level_size
    without_file raise_next find_overlapping_files
busy_engine-CompactFits = ((ltb→lt _ _ refl, ltb→lt _ _ refl), tt)

compact-keeps_example :
    IsValid compacted_engine
    × Persisted compacted_engine
    × (compacted_engine.memtable ≡ busy_engine.memtable)
    × (compacted_engine.wal ≡ busy_engine.wal)
compact-keeps_example =
    compact-keeps busy_engine compacted_engine busy_engine_compacts busy_engine-CompactFits
      busy_engine-Good.0 busy_engine-Good.1

busy_engine-CompactWrites : Durable.CompactFits busy_engine
unfolding put delete write_batch flush maybe_schedule_flush write_table rewrite_wal freeze recovered
    replay Skiplist.drain Skiplist.next Skiplist.item Skiplist.insert Memtable.put Memtable.delete
    Memtable.insert_entry Memtable.update_size_bytes BTreeMap.insert BTreeMap.get Wal.append
    Wal.append_batch Wal.reset Wal.open_writer Wal.read_all Wal.read_loop read_all_edits
    read_edits_loop log_edit log_and_apply write_all sort_by_seq without_memtable
    Types.estimated_size Bytes.cmp add_files delete_files at_level push_file compact compact_loop
    apply_compacted remove_files pick_compaction run_compaction gather merge_entries merge_entry
    final_entries write_entries delete_all next_overlapping key_range pick_by_size level_size
    without_file raise_next find_overlapping_files
busy_engine-CompactWrites = ((refl, ltb→lt _ _ refl, ltb→lt _ _ refl), tt)

compact-durable_example :
    (t : Engine (List Entry)) × ((compact busy_engine ≡ ok t)
      × (((k : Key) → get t k ≡ get busy_engine k) × IsValid t × Persisted t × InOrder t))
compact-durable_example =
    compact-durable busy_engine busy_engine-Good.0 busy_engine-Good.1 busy_engine-Good.2
      busy_engine-CompactWrites

-- Four flushes, a compaction of the four files, a restart.
abbrev with_compaction : List Command
with_compaction =
    Command.put key_a key_b
    ∷ Command.flush_now
    ∷ Command.put key_b key_a
    ∷ Command.flush_now
    ∷ Command.delete key_a
    ∷ Command.flush_now
    ∷ Command.put key_b key_b
    ∷ Command.flush_now
    ∷ Command.compact_now
    ∷ Command.restart
    ∷ []

with_compaction-RunFits : RunFits new_engine with_compaction
unfolding put delete write_batch flush maybe_schedule_flush write_table rewrite_wal freeze recovered
    replay Skiplist.drain Skiplist.next Skiplist.item Skiplist.insert Memtable.put Memtable.delete
    Memtable.insert_entry Memtable.update_size_bytes BTreeMap.insert BTreeMap.get Wal.append
    Wal.append_batch Wal.reset Wal.open_writer Wal.read_all Wal.read_loop read_all_edits
    read_edits_loop log_edit log_and_apply write_all sort_by_seq without_memtable
    Types.estimated_size Bytes.cmp add_files delete_files at_level push_file compact compact_loop
    apply_compacted remove_files pick_compaction run_compaction gather merge_entries merge_entry
    final_entries write_entries delete_all next_overlapping key_range pick_by_size level_size
    without_file raise_next find_overlapping_files
with_compaction-RunFits = (
  ((ltb→lt _ _ refl, omega arith), (refl, (ltb→lt _ _ refl, ltb→lt _ _ refl))),
  (
    (refl, (ltb→lt _ _ refl, ltb→lt _ _ refl)),
    (
      ((ltb→lt _ _ refl, omega arith), (refl, (ltb→lt _ _ refl, ltb→lt _ _ refl))),
      (
        (refl, (ltb→lt _ _ refl, ltb→lt _ _ refl)),
        (
          ((ltb→lt _ _ refl, omega arith), (refl, (ltb→lt _ _ refl, ltb→lt _ _ refl))),
          (
            (refl, (ltb→lt _ _ refl, ltb→lt _ _ refl)),
            (
              ((ltb→lt _ _ refl, omega arith), (refl, (ltb→lt _ _ refl, ltb→lt _ _ refl))),
              (
                (refl, (ltb→lt _ _ refl, ltb→lt _ _ refl)),
                (((refl, ltb→lt _ _ refl, ltb→lt _ _ refl), tt), (tt, tt)),
              ),
            ),
          ),
        ),
      ),
    ),
  ),
)

open_new-run_example :
    (open_engine (List Entry) synced new_directory ≡ ok new_engine)
    × ((t : Engine (List Entry)) × ((run new_engine with_compaction ≡ ok t)
          × ((j : Key) → get t j ≡ ok (updates (λ _. none) with_compaction j))))
open_new-run_example =
    open_new-run (List Entry) synced with_compaction refl (omega arith) with_compaction-RunFits

scan-get_example :
    (rs : List (Key × Value)) × (scan busy_engine (some key_a) none ≡ ok rs)
    × IsSorted rs
    × ((k : Key)
        → (v : Option Value) × (get busy_engine k ≡ ok v)
          × (BTreeMap.get rs k ≡ in_bounds (some key_a) none k v))
scan-get_example =
    scan-get busy_engine (some key_a) none busy_engine-Good.0 busy_engine-Good.2.layered
