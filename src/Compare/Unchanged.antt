-- ===== src/Compare/Unchanged.antt =====
-- lib/src/PackageUtil.ts: a package file that is compared with itself has no differences.
pub mod Properties
pub mod Packages
