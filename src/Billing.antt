-- ===== src/Billing.antt =====
-- services/billing and apps/billing: the subscription of a tenant, which Stripe's events change, the
-- access that it grants, and the limits of its plan.
pub mod Plans
pub mod Service
pub mod Access
pub mod Isolation
pub mod Webhook
pub mod Worker
pub mod Delivered
pub mod Told
pub mod Deliveries
mod Tests
