-- ===== src/Sstable.antt =====
-- src/sstable: the format of a table file, its builder and its reader.
pub mod Footer
pub mod Block
pub mod Bloom
pub mod Builder
pub mod Reader
pub mod Format
pub mod Files
