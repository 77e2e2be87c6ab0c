-- ===== src/Collect.antt =====
-- The part that the switch and the HCA collector share, `collect` of collectors/switch.go and of
-- collectors/hca.go: the two bodies differ in the names of their flags and counters alone.
pub mod Events
pub mod Worker
pub mod Runs
pub mod Closing
