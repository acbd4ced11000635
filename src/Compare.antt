-- ===== src/Compare.antt =====
-- lib/src/PackageUtil.ts: the comparison of package files and of their compatibility.
pub mod Difference
pub mod Schemas
pub mod Sources
pub mod Severity
pub mod Compatible
pub mod Unchanged
pub mod Reported
pub mod Additions
