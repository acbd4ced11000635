-- ===== src/Groups.antt =====
-- backend/src/resolvers/GroupResolver.ts: groups of users, and who manages them.
pub mod Rows
pub mod Calls
pub mod Batch
pub mod Managed
pub mod Kept
pub mod Batched
pub mod Unmanaged
