-- ===== src/Audit/Views.antt =====
-- apps/audit/views.py: the list of the audit entries of a tenant. The search in an email is
-- the database's, and so an argument.
use django_saas_kit.Text.{is_blank}
use django_saas_kit.Rbac.Permissions.{guarded}
use django_saas_kit.Users.Gdpr.{refers}
use django_saas_kit.Base.{
  if◌then◌else◌, List, Bool, Option, String, none, some, [], ◌∷◌, ◌&&◌, str_eq, true,
}
use django_saas_kit.Orm.{Orm}
use django_saas_kit.Models.{Db, AuditLog, AuditAction, Tenant}
use django_saas_kit.Http.{Request, Reply, reply}
use django_saas_kit.Action.{Action, gets}
use django_saas_kit.Rbac.Service.{owner, admin}

-- The values of `AuditLog.Action`
abbrev pub action_code : AuditAction → String
action_code AuditAction.login = "login"
action_code AuditAction.logout = "logout"
action_code AuditAction.login_failed = "login_failed"
action_code AuditAction.password_reset_requested = "password_reset_requested"
action_code AuditAction.password_reset_confirmed = "password_reset_confirmed"
action_code AuditAction.user_registered = "user_registered"
action_code AuditAction.user_deleted = "user_deleted"
action_code AuditAction.role_assigned = "role_assigned"
action_code AuditAction.role_revoked = "role_revoked"
action_code AuditAction.member_invited = "member_invited"
action_code AuditAction.invitation_accepted = "invitation_accepted"
action_code AuditAction.invitation_revoked = "invitation_revoked"
action_code AuditAction.subscription_created = "subscription_created"
action_code AuditAction.subscription_updated = "subscription_updated"
action_code AuditAction.subscription_canceled = "subscription_canceled"
action_code AuditAction.payment_succeeded = "payment_succeeded"
action_code AuditAction.payment_failed = "payment_failed"

abbrev pub entry_of : Tenant → AuditLog → Bool
entry_of tenant entry = refers tenant.pk entry.tenant

-- A parameter of the query that is missing or blank does not filter.
unfoldable pub passes : (String → Bool) → Option String → Bool
passes test none = true
passes test (some value) = if is_blank value then true else test value

module _ ⦃orm : Orm⦄ (icontains : (text part : String) → Bool) where
  -- `AuditLogListView.get_queryset`
  unfoldable pub audit_queryset :
      (action actor : Option String) → Option Tenant → Db → List AuditLog
  unfolding passes
  audit_queryset action actor none db = []
  audit_queryset action actor (some tenant) db =
      orm.filter
        (λ entry.
          entry_of tenant entry
          && (passes (str_eq (action_code entry.action)) action
              && passes (icontains entry.actor_email) actor))
        db.audit_logs

  unfoldable pub audit_list_view :
      (action actor : Option String) → Request → Action (Reply (List AuditLog))
  unfolding audit_queryset
  audit_list_view action actor =
      guarded (owner ∷ admin ∷ [])
        (λ request. gets (λ db. reply 200 (audit_queryset action actor request.tenant db)))
