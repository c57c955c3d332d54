-- ===== src/Users/Gdpr.antt =====
-- services/users/gdpr_service.py. The random tag of an anonymised user is an argument.
use django_saas_kit.Orm.Queries.{count}
use django_saas_kit.Rbac.Views.{with_user_pk}
use django_saas_kit.Text.{append}
use django_saas_kit.Action.{pure, gets, ◌>>◌, modify, ◌>>=◌, Action}
use django_saas_kit.Models.{
  UserTotp, UserTenantRole, UserProfile, Notification, User, OutstandingToken,
}
use django_saas_kit.Orm.{Orm}
use django_saas_kit.Base.{◌+◌, ◌&&◌, false, ◌==◌, Bool, Option, String, ℕ, none, some}

-- The rows of a user.
abbrev pub role_of : ℕ → UserTenantRole → Bool
role_of user r = r.user == user

abbrev pub notification_of : ℕ → Notification → Bool
notification_of user n = n.user == user

abbrev pub profile_of : ℕ → UserProfile → Bool
profile_of user p = p.user == user

abbrev pub totp_of : ℕ → UserTotp → Bool
totp_of user t = t.user == user

-- A foreign key that may be null.
abbrev pub refers : ℕ → Option ℕ → Bool
refers user none = false
refers user (some pk) = pk == user

abbrev pub token_of : ℕ → OutstandingToken → Bool
token_of user t = refers user t.user

abbrev pub blacklisted_of : ℕ → OutstandingToken → Bool
blacklisted_of user t = token_of user t && t.is_blacklisted

pub data Mode : Type 0 where
  anonymize_mode hard_delete_mode : Mode

pub record ErasureResult : Type 0 where
  pub user_id : ℕ
  pub mode : Mode
  pub notifications_deleted : ℕ
  pub roles_deleted : ℕ
  pub tokens_deleted : ℕ

-- The assignments of `anonymize` to the user.
abbrev pub anonymized : String → User → User
anonymized tag u = record u {
  username = append "deleted_" tag;
  email = append "deleted_" (append tag "@deleted.invalid");
  first_name = "";
  last_name = "";
  is_active = false;
  password = none;
}

module _ ⦃orm : Orm⦄ where
  -- `qs.delete()` counts the rows that it cascades to as well.
  unfoldable pub revoke_tokens : User → Action ℕ
  revoke_tokens user = do
    n ← gets (λ db. count (token_of user.pk) db.tokens + count (blacklisted_of user.pk) db.tokens)
    modify (λ db. record db { tokens = orm.delete (token_of user.pk) db.tokens })
    pure n

  unfoldable pub delete_notifications : User → Action ℕ
  delete_notifications user = do
    n ← gets (λ db. count (notification_of user.pk) db.notifications)
    modify
        (λ db. record db { notifications = orm.delete (notification_of user.pk) db.notifications })
    pure n

  unfoldable pub delete_roles : User → Action ℕ
  delete_roles user = do
    n ← gets (λ db. count (role_of user.pk) db.roles)
    modify (λ db. record db { roles = orm.delete (role_of user.pk) db.roles })
    pure n

  -- `user.delete()`: the row, and what `on_delete` of the models says of the rows that refer to it
  unfoldable pub delete_user : User → Action Unit
  delete_user user = modify (λ db. record db {
    users = orm.delete (with_user_pk user.pk) db.users;
    totps = orm.delete (totp_of user.pk) db.totps;
    profiles = orm.delete (profile_of user.pk) db.profiles;
    notifications = orm.delete (notification_of user.pk) db.notifications;
    roles =
        orm.save (λ r. refers user.pk r.assigned_by) (λ r. record r { assigned_by = none })
          (orm.delete (role_of user.pk) db.roles);
    invitations =
        orm.save (λ i. refers user.pk i.invited_by) (λ i. record i { invited_by = none })
          (orm.save (λ i. refers user.pk i.accepted_by) (λ i. record i { accepted_by = none })
            db.invitations);
    audit_logs =
        orm.save (λ a. refers user.pk a.actor) (λ a. record a { actor = none }) db.audit_logs;
    tokens = orm.save (token_of user.pk) (λ t. record t { user = none }) db.tokens;
  })

  -- `GDPRService.anonymize`
  unfoldable pub anonymize : String → User → Action ErasureResult
  unfolding revoke_tokens delete_notifications delete_roles
  anonymize tag user = orm.atomic (do
    n_tokens ← revoke_tokens user
    n_notifs ← delete_notifications user
    n_roles ← delete_roles user
    modify (λ db. record db { users = orm.save (with_user_pk user.pk) (anonymized tag) db.users })
    pure (record {
      user_id = user.pk;
      mode = anonymize_mode;
      notifications_deleted = n_notifs;
      roles_deleted = n_roles;
      tokens_deleted = n_tokens;
    }))

  -- `GDPRService.hard_delete`
  unfoldable pub hard_delete : User → Action ErasureResult
  unfolding revoke_tokens delete_notifications delete_roles delete_user
  hard_delete user = orm.atomic (do
    n_tokens ← revoke_tokens user
    n_notifs ← delete_notifications user
    n_roles ← delete_roles user
    delete_user user
    pure (record {
      user_id = user.pk;
      mode = hard_delete_mode;
      notifications_deleted = n_notifs;
      roles_deleted = n_roles;
      tokens_deleted = n_tokens;
    }))
