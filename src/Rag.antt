-- ===== src/Rag.antt =====
-- src/rag: of the retrieval subsystem, the division of texts into chunks and the query cache.
pub mod Text
pub mod Chunker
pub mod SemanticCache
