-- ===== src/Discover.antt =====
-- collectors/ibnetdiscover.go: the command line, the parser of the topology, and its cache.
pub mod Names
pub mod Rate
pub mod Items
pub mod Sort
pub mod Parse
pub mod Cache
