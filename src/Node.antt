-- ===== src/Node.antt =====
-- node: the controller of one node and its periodic tasks.
pub mod Users
pub mod Controller
pub mod Lifecycle
pub mod Monitor
pub mod Report
pub mod Nodes
