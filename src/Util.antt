-- ===== src/Util.antt =====
-- The intrusive lists of util/ and what is built on them.
pub mod Links
pub mod Slist
pub mod LinkedList
pub mod Reaper
pub mod TimeQueue
pub mod RwLock
pub mod ChannelId
mod Tests
