-- ===== src/Config.antt =====
-- src/config.rs: the options. The directory is not modelled: an engine owns its files.
use flash_store.Prelude.{ℕ, ◌*◌, Bool, true, false}

pub record Options : Type 0 where
  pub memtable_size : ℕ
  pub block_size : ℕ
  pub bloom_bits_per_key : ℕ
  pub max_levels : ℕ
  pub base_level_size_bytes : ℕ
  pub sync_wal : Bool
  pub block_cache_size : ℕ
  pub create_if_missing : Bool

abbrev pub default_options : Options
default_options = record {
  memtable_size = 4 * 1024 * 1024;
  block_size = 4 * 1024;
  bloom_bits_per_key = 10;
  max_levels = 7;
  base_level_size_bytes = 10 * 1024 * 1024;
  sync_wal = false;
  block_cache_size = 64 * 1024 * 1024;
  create_if_missing = true;
}
