-- ===== src/Transforms.antt =====
-- client-lib/src/transforms: the stream transforms, each as a state and a step for every chunk.
pub mod Chunks
pub mod ByteOffset
pub mod Batching
pub mod LineOffset
pub mod Lines
pub mod RecordOffset
pub mod ByteBatching
pub mod Separated
