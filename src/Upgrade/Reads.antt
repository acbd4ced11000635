-- ===== src/Upgrade/Reads.antt =====
-- lib/src/PackageUtil.ts, `upgradePackageFile`: what each step leaves of the members of a package
-- file, by their keys.
pub mod Steps
pub mod Whole
pub mod Version
