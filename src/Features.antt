-- ===== src/Features.antt =====
-- services/features: the feature flags of a tenant.
pub mod Dict
pub mod Service
pub mod Resolution
pub mod Setting
mod Tests
