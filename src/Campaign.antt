-- ===== src/Campaign.antt =====
-- src/services/mailing/campaign.service.ts: newsletters, from the draft to the last recipient.
pub mod Tables
pub mod Snapshot
pub mod Control
pub mod Release
pub mod Advance
pub mod History
pub mod Life
pub mod Follows
pub mod Moves
pub mod Steps
pub mod Sending
pub mod Runs
pub mod Refines
pub mod Queued
pub mod Warmup
pub mod Passes
pub mod Fit
mod Examples
