-- ===== src/Exporter.antt =====
-- infiniband_exporter.go: the collectors of a scrape, and the two ways of running the exporter.
pub mod Setup
pub mod Textfile
pub mod Web
pub mod Run
