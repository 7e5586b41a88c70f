-- ===== src/Skill.antt =====
-- core/skill: the lifecycle of a skill, and which policies become one.
pub mod Lifecycle
pub mod Eligibility
pub mod Feedback
mod Tests
