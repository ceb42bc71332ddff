-- ===== src/Outbox.antt =====
-- src/services/email-outbox.service.ts: outbound email that is queued, sent by the job runner, and
-- retried.
pub mod Address
pub mod Table
pub mod Deliver
pub mod History
pub mod Kept
pub mod Settled
pub mod Once
pub mod Pass
pub mod Keys
pub mod Ends
mod Examples
