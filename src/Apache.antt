-- ===== src/Apache.antt =====
-- internal/plugins/apache/parser/parser.go: Apache configurations.
pub mod Ast
pub mod Lines
pub mod Words
pub mod Parser
mod Tests
