-- ===== src/Invitations.antt =====
-- services/invitations and apps/invitations: invitations to join a tenant, from sending to their end.
pub mod Service
pub mod Views
pub mod Sending
pub mod Emailed
pub mod Steps
pub mod Lifecycle
pub mod Single
pub mod Limits
pub mod Joining
pub mod Confusion
mod Tests
