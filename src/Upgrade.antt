-- ===== src/Upgrade.antt =====
-- lib/src/PackageUtil.ts, `upgradePackageFile`: from any older schema version to the current one.
pub mod Objects
pub mod Early
pub mod Middle
pub mod ValueTypes
pub mod Late
pub mod Chain
pub mod Reads
pub mod Documents
pub mod Sources
pub mod Returns
