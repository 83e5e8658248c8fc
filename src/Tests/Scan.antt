-- ===== src/Tests/Scan.antt =====
-- The results on `scan` and `compact` of src/engine.rs at concrete inputs.
use flash_store.Prelude.{◌≡◌, refl, false, [], ◌∷◌, ◌++◌, List, Option, none, some}
use flash_store.BTreeMap.{get}
use flash_store.BTreeMap.Laws.{IsSorted}
use flash_store.Compaction.Merge.{IsNewest}
use flash_store.Config.{default_options}
use flash_store.Error.{ok}
use flash_store.Manifest.{new_set}
use flash_store.Types.{Key, Value, Entry, new_value}
use flash_store.Wal.{open_writer}
use flash_store.Engine.{Engine}
use flash_store.Engine.Flushing.{entries_of}
use flash_store.Engine.Scan.{scan, gather_levels}
use flash_store.Engine.Scanned.{all_entries, shown, held, scan-IsNewest}
use flash_store.Compaction.{gather}
use flash_store.Tests.Codecs.{wal_codec, edit_codec}
use flash_store.Tests.Instances.{buf, crc, tables}
use flash_store.Tests.Memtable.{one_entry}
use flash_store.Tests.Types.{key_a, key_b}

-- An engine with one entry in its memtable, and with an older one in a table.
abbrev two_sources : Engine (List Entry)
two_sources = record {
  options = default_options;
  memtable = one_entry;
  imm_memtables = [];
  wal = open_writer [] false;
  manifest = record { content = []; pos = 0; durable = [] };
  version_set = record (new_set 2) {
    levels =
        (record { file_number = 1; file_size = 1; smallest_key = key_b; largest_key = key_b } ∷ [])
        ∷ []
        ∷ [];
    next_file_number = 2;
  };
  memtable_id_seq = 2;
  files = λ n. some (new_value key_b key_a 0 ∷ []);
}

two_sources_read :
    gather_levels two_sources.files two_sources.version_set.levels
    ≡ ok (new_value key_b key_a 0 ∷ [])
unfolding gather_levels gather
two_sources_read = refl

scan-IsNewest_example :
    (rs : List (Key × Value)) × (scan two_sources (some key_a) none ≡ ok rs)
    × IsSorted rs
    × ((k : Key)
        → (o : Option Entry) × IsNewest k
            (((new_value key_b key_a 0 ∷ []) ++ all_entries []) ++ entries_of one_entry)
            o
          × (get rs k ≡ shown (some key_a) none k (held o)))
scan-IsNewest_example =
    scan-IsNewest two_sources (some key_a) none (new_value key_b key_a 0 ∷ []) two_sources_read
