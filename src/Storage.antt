-- ===== src/Storage.antt =====
-- Package storage.
pub mod Bolt
pub mod Network
pub mod ChannelIndex
pub mod History
