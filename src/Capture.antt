-- ===== src/Capture.antt =====
-- core/capture: how the turns of a finished episode become the steps that traces are made of.
pub mod ToolCalls
pub mod Segments
pub mod Stamps
pub mod Steps
pub mod Normalizer
mod Tests
