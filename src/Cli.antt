-- ===== src/Cli.antt =====
-- crates/edgeclaw-cli/src: the command line, less its prompts and the parsing of arguments.
pub mod Config
