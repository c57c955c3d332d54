-- ===== src/Tenants.antt =====
-- services/tenants and apps/tenants: the creation of tenants, and the tenant of a request's host.
pub mod Middleware
pub mod Service
pub mod Freshness
pub mod Serving
pub mod Creation
mod Tests
