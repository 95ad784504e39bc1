-- ===== src/Renew.antt =====
-- internal/verbs/renew.go: which certificates are renewed, and when.
pub mod Interval
pub mod Due
pub mod One
pub mod Loop
mod Tests
