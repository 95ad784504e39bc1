-- ===== src/Nginx.antt =====
-- internal/plugins/nginx: the configuration parser and its printer, and the score of a server.
pub mod Lexer
pub mod Ast
pub mod Parser
pub mod Names
mod Tests
