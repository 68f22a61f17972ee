-- ===== src/Queue.antt =====
-- internal/queue: the Store & Forward buffer.
pub mod Types
pub mod Codec
pub mod Db
pub mod Store
pub mod Stats
pub mod Life
pub mod Capacity
pub mod ChunkCodec
