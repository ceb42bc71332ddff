-- ===== src/Jobs.antt =====
-- Scheduled jobs and their runner: src/services/scheduled-jobs.service.ts, src/jobs/cron.ts and
-- src/jobs/runner.ts.
pub mod Tables
pub mod Cron
pub mod Service
pub mod Claim
pub mod Run
pub mod Pass
pub mod CatchUp
pub mod History
pub mod Rows
pub mod Ids
pub mod Cadence
pub mod Update
pub mod Valid
pub mod Turns
pub mod Locks
pub mod Tick
mod Examples
mod TickExamples
