-- ===== src/Fetch.antt =====
-- client-lib/src/util/StreamToSinkUtil.ts and its parts: records from the streams of a source to a sink,
-- and the state that the sink keeps of them.
pub mod Tables
pub mod State
pub mod Offsets
pub mod Available
pub mod Committed
pub mod Switch
pub mod Switched
pub mod Resume
pub mod Resumed
pub mod Streams
pub mod Opened
