-- ===== src/Replay.antt =====
-- sdk/workflow: the deterministic replay of a workflow against its history.
pub mod Types
pub mod Index
pub mod Engine
pub mod Commands
pub mod Fresh
pub mod Rerun
pub mod Resume
pub mod Decisions
pub mod Clock
pub mod Recorded
pub mod Opened
