-- ===== src/Counter.antt =====
-- common/counter: the byte counters of the users, and the connections that feed them.
pub mod Traffic
pub mod Conn
pub mod Slice
