-- ===== src/Examples.antt =====
-- sync-examples: four counters, four leader elections and four pairs of a producer and a consumer,
-- each with its own way to synchronise.
pub mod Lock
pub mod Totals
pub mod Counters
pub mod Elections
pub mod Factory
