-- ===== src/Tests.antt =====
-- Runs of the theorems at concrete inputs.
pub mod WireRuns
pub mod ConnectionRuns
pub mod DecodeRuns
pub mod ClientRuns
pub mod ResponseRuns
pub mod ReplyRuns
pub mod ValidationRuns
pub mod ReadinessRuns
pub mod ReceiverRuns
