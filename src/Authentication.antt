-- ===== src/Authentication.antt =====
-- apps/authentication and services/auth: registration, logins with two factors, social logins, and
-- the reset of a password.
pub mod Service
pub mod TwoFactor
pub mod Tokens
pub mod PasswordReset
pub mod Codes
pub mod Once
pub mod BackupCodes
pub mod Interleaving
pub mod Races
pub mod Overlap
pub mod Login
pub mod Reset
pub mod Samples
mod Tests
mod RaceTests
