-- ===== src/Memberlist.antt =====
-- The gossip store: kv/memberlist/*.go.
pub mod Interface
pub mod Broadcast
pub mod Store
pub mod Messages
pub mod Watchers
pub mod Wire
pub mod Client
