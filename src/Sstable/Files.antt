-- ===== src/Sstable/Files.antt =====
-- The tables of the engine as files: what src/sstable/builder.rs writes and src/sstable/reader.rs
-- reads, without a cache.
use flash_store.Prelude.{ℕ, []}
use flash_store.Bytes.{Bytes}
use flash_store.Config.{Options}
use flash_store.External.{Buf, Crc32, Bincode}
use flash_store.Sstable.Builder.{Index, build_table}
use flash_store.Sstable.Format.{
  fits_table, lookup_file, read_file, build_table-Reads, NoCache, no_cache,
}
use flash_store.Tables.{Tables}
use flash_store.Types.{Entry}

module _ ⦃buf : Buf⦄ ⦃codec : Bincode Entry⦄ ⦃crc : Crc32⦄ ⦃index_codec : Bincode Index⦄ where
  -- The file and its size; lookups and scans open the file.
  abbrev pub file_tables : (ℕ → ℕ) → Options → Tables Bytes
  file_tables rounded options = record {
    build = λ es. let (file, size) = build_table rounded options es in (file.content, size);
    lookup = lookup_file NoCache 0;
    read_all = read_file NoCache 0;
    fits = fits_table rounded options;
    lookup-build =
        λ es k sorted fit. (build_table-Reads NoCache rounded options 0 es k sorted fit).0;
    read_all-build =
        λ es sorted fit. (build_table-Reads NoCache rounded options 0 es [] sorted fit).1;
  }
