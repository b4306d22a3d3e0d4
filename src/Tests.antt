-- ===== src/Tests.antt =====
-- Concrete inputs for the theorems.
pub mod Fixtures
pub mod Core
pub mod Store
mod Background
pub mod Activities
pub mod Replay
pub mod Resumption
pub mod HttpApi
pub mod Service
pub mod Workers
pub mod Progress
pub mod Orders
pub mod Wakeups
pub mod Clients
