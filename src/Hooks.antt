-- ===== src/Hooks.antt =====
-- internal/hooks/hooks.go: the hook directories, the check of a hook command, and the environment
-- of the post-hooks.
pub mod Dir
pub mod Command
mod Tests
