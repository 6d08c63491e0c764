-- ===== src/Tools.antt =====
-- The built-in tools of crates/agent-core/src/builtins and crates/edgeclaw-server/src/builtins.
pub mod FileEdit
pub mod FileRead
pub mod FileWrite
pub mod Glob
pub mod Grep
pub mod Bash
pub mod Memory
