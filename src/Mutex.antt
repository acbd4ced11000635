-- ===== src/Mutex.antt =====
-- client-lib/src/util/Mutex.ts: calls that run one at a time, in the order they ask.
pub mod Chain
pub mod Turns
pub mod Finish
