-- ===== src/Memstore.antt =====
-- The memory store (store/memory/): messages, the buffer of a channel, and publishing to it.
pub mod Message
pub mod Buffer
pub mod Publish
pub mod Ipc
pub mod Groups
mod Tests
