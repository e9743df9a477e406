-- ===== src/Knowledge.antt =====
-- backend/src/knowledge: how documents are cut into chunks.
pub mod Chunking
pub mod Outline
pub mod Domain
pub mod Schemas
pub mod Library
pub mod Metadata
pub mod Service
pub mod Search
pub mod Rows
pub mod Indexing
pub mod Filing
pub mod Ingestion
pub mod Runs
pub mod Duplicates
pub mod Ranking
pub mod Retrieval
pub mod Parsing
pub mod Repository
pub mod VectorStore
