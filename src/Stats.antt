-- ===== src/Stats.antt =====
-- client-lib/src/transforms/StatsTransform.ts: the statistics of the values of a property, by value type.
pub mod Updates
pub mod Types
pub mod Options
pub mod Counts
pub mod Lost
