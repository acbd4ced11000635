-- ===== src/Deconflict.antt =====
-- client-lib/src/util/SchemaUtil.ts: properties that were seen with several value types, the choices for
-- them, and the schema after a choice.
pub mod Choices
pub mod Conflicts
pub mod Updates
pub mod Resolved
pub mod Settled
pub mod Values
pub mod Casts
pub mod CastTypes
pub mod Uncast
pub mod Records
pub mod Deconflicted
pub mod Sanitized
