-- ===== src/Tests.antt =====
-- Concrete instances of the interfaces, and each result at a concrete input.
pub mod Codecs
pub mod Instances
pub mod Types
pub mod Memtable
pub mod Wal
pub mod Manifest
pub mod Sstable
pub mod Compaction
pub mod Engine
pub mod Durable
pub mod Scan
pub mod Tables
pub mod Cache
pub mod Iterator
pub mod Rag
