-- ===== src/Index.antt =====
-- wks/api/index: how a document's text becomes chunks, the stores of chunks and embeddings, and the commands
-- that fill them.
pub mod Chunker
pub mod Stores
pub mod Commands
