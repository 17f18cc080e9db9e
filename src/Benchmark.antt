-- ===== src/Benchmark.antt =====
-- The benchmark (node/src/benchmark): the search for the most feeds a node sustains, the memory budget
-- that holds it back, and the run that drives it.
pub mod Search
pub mod Memory
pub mod Run
