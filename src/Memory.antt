-- ===== src/Memory.antt =====
-- core/memory: the pool of candidates from which policies are induced.
pub mod CandidateId
pub mod CandidateRepo
pub mod CandidatePool
mod Tests
