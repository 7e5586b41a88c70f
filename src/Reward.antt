-- ===== src/Reward.antt =====
-- core/reward: what the episodes of a task earn.
pub mod Backprop
mod Tests
