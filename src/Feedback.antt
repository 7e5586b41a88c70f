-- ===== src/Feedback.antt =====
-- core/feedback: the tracker of tool failures that triggers a decision repair.
pub mod Hash
pub mod Signals
mod Tests
