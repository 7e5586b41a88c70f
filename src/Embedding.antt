-- ===== src/Embedding.antt =====
-- core/embedding: the cache of embedding vectors.
pub mod Cache
mod Tests
