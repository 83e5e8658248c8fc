-- ===== src/Tests/Engine.antt =====
-- The results on src/engine.rs at concrete inputs.
use flash_store.Prelude.{
  All, ◌++◌, ◌≡◌, refl, true, false, [], ◌∷◌, List, none, some, if◌then◌else◌, arith,
}
use flash_store.Batch.{BatchOp, WriteBatch}
use flash_store.Bytes.{key_eq}
use flash_store.Config.{default_options}
use flash_store.Error.{ok}
use flash_store.Manifest.{new_set, read_all_edits, read_edits_loop}
use flash_store.Manifest.Log.{encode_all}
use flash_store.Manifest.Versions.{new_set-IsValid, NumbersFit}
use flash_store.Types.{Entry}
use flash_store.Wal.{open_writer}
use flash_store.Engine.{Engine, get, put, delete, write_batch, flush}
use flash_store.Engine.Flush.{IsValid, flush-get}
use flash_store.Engine.Opening.{Directory, open_engine, open_engine-IsValid}
use flash_store.Engine.Writes.{put-get, delete-get, write_batch-get, after_batch, last_op}
use flash_store.Tests.Codecs.{wal_codec, edit_codec}
use flash_store.Tests.Instances.{buf, crc, tables}
use flash_store.Tests.Manifest.{adding}
use flash_store.Tests.Memtable.{one_entry, one_entry-IsValid}
use flash_store.Tests.Types.{key_a, key_b}

-- An engine with one entry, and with a memtable that is flushed at each write.
abbrev started : Engine (List Entry)
started = record {
  options = record default_options { memtable_size = 1 };
  memtable = one_entry;
  imm_memtables = [];
  wal = open_writer [] false;
  manifest = record { content = []; pos = 0; durable = [] };
  version_set = new_set 7;
  memtable_id_seq = 2;
  files = λ n. none;
}

started-IsValid : IsValid started
started-IsValid = record {
  memtable = one_entry-IsValid;
  none_frozen = refl;
  versions = new_set-IsValid 7;
  has_level = omega arith;
}

flush-get_example : get (flush started) key_a ≡ get started key_a
flush-get_example = flush-get started key_a started-IsValid refl

put-get_example :
    (get (put started key_b key_a) key_b
      ≡ (if key_eq key_b key_b then ok (some key_a) else get started key_b))
    × IsValid (put started key_b key_a)
put-get_example = put-get started key_b key_a key_b started-IsValid (omega arith) refl

delete-get_example :
    (get (delete started key_a) key_a ≡ (if key_eq key_a key_a then ok none else get started key_a))
    × IsValid (delete started key_a)
delete-get_example = delete-get started key_a key_a started-IsValid (omega arith) refl

abbrev some_batch : WriteBatch
some_batch = record {
  ops = BatchOp.put key_b key_a ∷ BatchOp.delete key_a ∷ BatchOp.put key_b key_b ∷ [];
}

write_batch-get_example :
    (get (write_batch started some_batch) key_b
      ≡ after_batch (last_op key_b some_batch.ops) (get started key_b))
    × IsValid (write_batch started some_batch)
write_batch-get_example =
    write_batch-get started some_batch key_b started-IsValid (omega arith) refl

abbrev torn_directory : Directory (List Entry)
torn_directory = record {
  exists = true;
  manifest = some (encode_all (adding ∷ []) ++ 0 ∷ 0 ∷ []);
  wal = some (1 ∷ 2 ∷ 3 ∷ []);
  files = λ n. none;
}

one_edit_read : All NumbersFit (read_all_edits torn_directory.manifest)
unfolding read_all_edits read_edits_loop
one_edit_read = ((omega arith, tt), tt)

open_engine-IsValid_example :
    (s : Engine (List Entry)) × (open_engine (List Entry) default_options torn_directory ≡ ok s)
    × IsValid s
open_engine-IsValid_example =
    open_engine-IsValid (List Entry) default_options torn_directory refl (omega arith) one_edit_read
