-- ===== src/Shell.antt =====
-- The shell: the split of a line into words, `shell_parse_command` of src/shell/core/shell_core.c, and
-- src/shell/parser/parser.c.
pub mod Parser
