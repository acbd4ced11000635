-- ===== src/SessionCache.antt =====
-- backend/src/session-cache.ts: the promises that one request shares.
pub mod Keys
pub mod Store
pub mod Loads
pub mod Kept
