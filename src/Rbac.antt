-- ===== src/Rbac.antt =====
-- services/rbac/rbac_service.py and apps/rbac: roles of users in tenants, who may do what, and the
-- views that assign and revoke roles.
pub mod Service
pub mod Permissions
pub mod Views
pub mod Roles
pub mod Revoking
pub mod Refinement
pub mod Guards
mod Tests
