-- ===== src/Retrieval.antt =====
-- core/retrieval: which memories are handed to the agent.
pub mod Types
pub mod Relevance
pub mod Ranker
mod Tests
