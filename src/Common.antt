-- ===== src/Common.antt =====
-- apps/common: soft deletion, the envelope of error replies, the redaction of log entries, the
-- readiness probe, and the throttles.
pub mod SoftDelete
pub mod Restoring
pub mod SnakeCase
pub mod Names
pub mod Envelope
pub mod Messages
pub mod Redaction
pub mod Health
pub mod Throttling
pub mod Tracing
pub mod Following
mod Tests
