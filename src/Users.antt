-- ===== src/Users.antt =====
-- services/users: registration, and the erasure of a user's data.
pub mod Service
pub mod Registration
pub mod Gdpr
pub mod Erasure
pub mod Views
pub mod Profiles
pub mod Listing
pub mod Command
mod Tests
