-- ===== src/Social.antt =====
-- Logins with Google and GitHub: services/auth/social_auth_service.py and
-- apps/authentication/social_views.py.
pub mod Service
pub mod Usernames
pub mod Search
pub mod Login
mod Tests
