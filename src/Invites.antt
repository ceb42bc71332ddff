-- ===== src/Invites.antt =====
-- src/services/invite.service.ts: team invitations, from their creation to their one use.
pub mod Tables
pub mod Service
pub mod Accept
pub mod History
pub mod Rows
pub mod Single
pub mod Once
pub mod Lifetime
mod Examples
