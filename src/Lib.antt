-- ===== src/Lib.antt =====
-- FlashStore: the storage engine of the repository, an LSM tree with a write-ahead log, a manifest,
-- immutable table files and compaction; and, of its retrieval part, chunking and the query cache.
--
-- How the parts interact: a write takes a sequence number from the version set, appends a record to
-- the log and enters the memtable; when the memtable is large it is frozen, written as a table of
-- level 0, and its edit is logged in the manifest and applied to the version set; the log is then
-- written anew from what is not flushed. A read asks the memtable, the frozen memtables from the
-- newest on, level 0 from the newest file on, and the levels below by key range. A compaction merges
-- tables into the next level. Opening replays the manifest and then the log. A merging iterator over
-- the sources of a store, the chunking of documents and the query cache stand beside the engine.
--
-- Which file models which part (children hold the proofs unless said otherwise):
--   Prelude, Ordered     shared names, lists over native numbers, comparisons
--   Bytes                `bytes::Bytes` and its lexicographic order: lists of numbers
--   BTreeMap             `std::collections::BTreeMap` as a list in key order
--   Disk                 `std::fs::File`: content, cursor, and what `sync_all` made durable
--   External             interfaces to the crates bytes, crc32fast and bincode
--   Error, Config, Batch src/error.rs, src/config.rs, src/batch.rs
--   Types                src/types.rs: `Entry`, `InternalKey`, `KeyRange`
--   Memtable             src/memtable/mod.rs; Memtable/Skiplist is src/memtable/skiplist.rs
--   Wal                  src/wal/mod.rs; Wal/Record is src/wal/record.rs
--   Manifest             src/manifest/mod.rs and src/manifest/version.rs
--   Cache                src/cache/mod.rs; Cache/Interface is the cache as the reader takes it
--   Sstable              Sstable/Footer, Sstable/Block, Sstable/Bloom, Sstable/Builder and
--                        Sstable/Reader: the files of src/sstable; Sstable/Reader also has the
--                        interface by which it takes a cache. Sstable/Format has what the reader finds in
--                        what the builder wrote, and Sstable/Files the interface Tables from it
--   Tables               what the engine needs of a table file, as an interface
--   Compaction           src/compaction/mod.rs
--   Engine               src/engine.rs: state and writes; Engine/Search the parts of `get`,
--                        Engine/Flushing the loops of `flush`, Engine/Opening `open`, `stats` and
--                        `close`, Engine/Scan `scan`, Engine/Compacting `compact`;
--                        Engine/Durable what the directory says of the state, and
--                        Engine/Durable/Commands the commands of a run and the map they change
--                        Engine/Layers which table hides which, and from that what a compaction and a
--                        scan have to do with reads
--   Iterator             src/iterator/mod.rs; Iterator/Sources has the iterators over a memtable and
--                        over entries as sources, the other children the merge
--   Rag                  Rag/Chunker is src/rag/chunker.rs, over texts of Rag/Text, and
--                        Rag/SemanticCache is src/rag/cache.rs with the vectors of src/rag/dense.rs
--                        that it compares
--   Tests                instances of the interfaces, and the results at concrete inputs
--
-- State is passed explicitly: an operation takes the record of its state and returns the new one.
-- Machine integers are natural numbers with their wrap-around written out, that of a release build,
-- where an overflow does not panic.
-- Loops over a log run on fuel, one round for each byte, and each round passes at least four bytes;
-- the binary search has one round for each index; the loop over an iterator has one for each entry.
-- `compact` has 100 rounds, as in the code. The merge has one round for each item that the iterators
-- have left, and the loops over windows one for each character or word, since each moves on by one
-- at least.
--
-- Not modelled: threads, locks and atomics (each operation runs alone), failing file operations, the
-- block cache in `get` and `scan` of the engine, which read tables by the lookups without one, and
-- the parts above the engine: the rest of rag, agent, mcp and cli. The directory is the
-- manifest, the log and the tables by number; a loss of power leaves of a file what `sync_all`
-- made durable, and all of a table. CRC-32 and bincode are parameters: a checksum is below 2^32,
-- and what bincode writes reads back. Arithmetic on `f32` is a parameter, and the clock an argument.
pub mod Prelude
pub mod External
pub mod Ordered
pub mod Bytes
pub mod Cache
pub mod Error
pub mod BTreeMap
pub mod Types
pub mod Memtable
pub mod Disk
pub mod Wal
pub mod Manifest
pub mod Sstable
pub mod Config
pub mod Batch
pub mod Iterator
pub mod Tables
pub mod Compaction
pub mod Engine
pub mod Rag
pub mod Tests
