-- ===== src/Certonly.antt =====
-- internal/verbs/certonly.go: what a request does to an existing certificate of its name.
pub mod Dispatch
pub mod Names
mod Tests
