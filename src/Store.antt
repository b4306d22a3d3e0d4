-- ===== src/Store.antt =====
-- internal/storage: the tables of the schema and the Postgres implementation of `Store`.
pub mod Tables
pub mod Monad
pub mod Events
pub mod Workflows
pub mod Commands
pub mod Activities
pub mod Timers
pub mod Calls
pub mod Keeps
pub mod CallRules
pub mod Statements
pub mod TableRules
pub mod History
pub mod Once
pub mod Answers
pub mod Leases
pub mod Running
pub mod Starts
pub mod Progress
pub mod Queries
pub mod Reorder
pub mod Migrations
pub mod Fired
pub mod Wakeups
pub mod Decided
pub mod Closed
pub mod Durable
pub mod Retries
