-- ===== src/Tests.antt =====
-- Runs of the theorems on concrete users, limiters, counters and tasks.
pub mod Data
pub mod Limits
pub mod Traffic
pub mod Tasks
pub mod Nodes
pub mod Cores
pub mod Hooks
pub mod Links
pub mod Servers
pub mod Events
pub mod Replies
pub mod Dispatch
pub mod Readers
pub mod Lists
