-- ===== src/Combine.antt =====
-- client-lib/src/util/SchemaUtil.ts: how the schemas of an earlier inspection and of a new one are combined.
pub mod Values
pub mod Labels
pub mod Trees
pub mod Schemas
pub mod Covers
pub mod Kept
pub mod Samples
pub mod Bounds
