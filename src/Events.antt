-- ===== src/Events.antt =====
-- src/lib/events.ts: durable events. The children below model its parts.
pub mod Store
pub mod Finish
pub mod Claim
pub mod Topic
pub mod Publish
pub mod Reserve
pub mod Process
pub mod Sync
pub mod Seen
pub mod Retention
pub mod Sweeps
pub mod Kept
pub mod Rows
pub mod Fence
pub mod Backoff
pub mod Due
pub mod Picks
pub mod History
pub mod Budget
pub mod Returned
pub mod Timeout
pub mod Settle
pub mod Once
pub mod Keys
pub mod Stale
pub mod Fanout
pub mod Sample
mod Examples
mod Upkeep
