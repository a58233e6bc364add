-- ===== src/Limiter.antt =====
-- limiter/limiter.go, limiter/dynamic.go and limiter/rule.go.
pub mod State
pub mod Speed
pub mod Users
pub mod Check
pub mod Online
pub mod Rule
