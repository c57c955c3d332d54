-- ===== src/Models/Database.antt =====
-- The database: one table for each model, the Celery queue, and whether the audit table refuses
-- to be written, which the environment decides.
use django_saas_kit.Base.{Bool, List}
use django_saas_kit.Orm.{Orm}
use django_saas_kit.Models.Rows.{
  User, UserProfile, UserTotp, Notification, OutstandingToken, Tenant, Domain, UserTenantRole, Plan,
  Subscription, TenantInvitation, TenantFeatureFlag, AuditLog, WebhookEvent, Task,
}

module _ ⦃orm : Orm⦄ where
  open orm use {Table}

  pub record Db : Type 0 where
    pub users : Table User
    pub totps : Table UserTotp
    pub profiles : Table UserProfile
    pub notifications : Table Notification
    pub tokens : Table OutstandingToken
    pub tenants : Table Tenant
    pub domains : Table Domain
    pub roles : Table UserTenantRole
    pub plans : Table Plan
    pub subscriptions : Table Subscription
    pub invitations : Table TenantInvitation
    pub flags : Table TenantFeatureFlag
    pub audit_logs : Table AuditLog
    pub webhook_events : Table WebhookEvent
    pub queue : List Task
    pub audit_broken : Bool
