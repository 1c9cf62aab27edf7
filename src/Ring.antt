-- ===== src/Ring.antt =====
-- The hash ring: ring/*.go.
pub mod Types
pub mod Tokens
pub mod Operation
pub mod Desc
pub mod Conflicts
pub mod Merge
pub mod Search
pub mod State
pub mod Strategy
pub mod Get
pub mod ReadAll
pub mod Do
pub mod Compare
pub mod Update
pub mod Changes
pub mod Batch
pub mod Shard
pub mod Lifecycler
pub mod Wait
pub mod BasicLifecycler
mod Examples
