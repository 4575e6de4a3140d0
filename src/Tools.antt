-- ===== src/Tools.antt =====
-- tools: the command line.
pub mod CommandLine
