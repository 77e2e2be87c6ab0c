-- ===== src/Perfquery.antt =====
-- collectors/perfquery.go: the command line, the call with its retries, and the parser of its output.
pub mod Counters
pub mod Command
pub mod Retry
pub mod Parse
