-- ===== src/Compare/Reported.antt =====
-- lib/src/PackageUtil.ts: which types of difference `comparePackages` reports at all.
pub mod Entries
pub mod Parts
pub mod Packages
