-- ===== src/Invitations/Service.antt =====
-- `InvitationService` and the properties of `TenantInvitation`. The key, the token and the clock of a
-- new row are drawn by the environment.
use django_saas_kit.Billing.Plans.{check_member_limit}
use django_saas_kit.Audit.{log}
use django_saas_kit.Rbac.Service.{assign_role, valid_roles, at_user_tenant, is_in}
use django_saas_kit.Rbac.Views.{with_user_pk}
use django_saas_kit.Rbac.Permissions.{with_pk}
use django_saas_kit.Orm.Queries.{exists, first}
use django_saas_kit.Text.{is_blank, append, strip, lower}
use django_saas_kit.Base.{
  if◌then◌else◌, ◌&&◌, none, true, str_eq, ltb, false, ◌++◌, List, Bool, String, not, some, Option,
  ℕ, ◌==◌, ◌+◌, ◌*◌, [], ◌∷◌,
}
use django_saas_kit.Orm.{Orm}
use django_saas_kit.Models.{
  Task, AuditAction, send_invitation_email, Db, TenantInvitation, Tenant, User, pending, accepted,
  revoked, expired, InvitationStatus,
}
use django_saas_kit.Action.{
  pending_exists, already_member, invalid_role, invitation_expired, does_not_exist, raise,
  invitation_not_pending, invitation_used, invitation_not_found, the_only, Action, pure, ◌>>=◌,
  ◌>>◌, modify, gets, raise_if,
}

-- What the environment supplies to a call: the clock, the random defaults of a new row, and the
-- setting FRONTEND_URL.
pub record Env : Type 0 where
  pub now : ℕ
  pub uuid : ℕ
  pub token : String
  pub frontend_url : String

-- `_EXPIRY_HOURS`, in seconds
abbrev pub expiry : ℕ
expiry = 72 * 3600

abbrev pub is_pending : InvitationStatus → Bool
is_pending pending = true
is_pending accepted = false
is_pending revoked = false
is_pending expired = false

-- `TenantInvitation.is_expired`
unfoldable pub is_expired : ℕ → TenantInvitation → Bool
is_expired now invitation = ltb invitation.expires_at now

-- `TenantInvitation.is_usable`
unfoldable pub is_usable : ℕ → TenantInvitation → Bool
unfolding is_expired
is_usable now invitation = is_pending invitation.status && not (is_expired now invitation)

-- The lookups on `TenantInvitation`, and on users by email.
abbrev pub pending_for : ℕ → String → TenantInvitation → Bool
pending_for tenant email i = i.tenant == tenant && str_eq i.email email && is_pending i.status

abbrev pub with_token : String → TenantInvitation → Bool
with_token token i = str_eq i.token token

abbrev pub with_invitation_pk : ℕ → TenantInvitation → Bool
with_invitation_pk pk i = i.pk == pk

abbrev pub in_tenant : ℕ → ℕ → TenantInvitation → Bool
in_tenant pk tenant i = i.pk == pk && i.tenant == tenant

abbrev pub open_in_tenant : ℕ → ℕ → TenantInvitation → Bool
open_in_tenant now tenant i = i.tenant == tenant && is_pending i.status && ltb now i.expires_at

abbrev pub with_email : String → User → Bool
with_email email u = str_eq u.email email

-- The assignments of the methods to the invitation that they have found.
abbrev pub set_expired : TenantInvitation → TenantInvitation
set_expired i = record i { status = expired }

abbrev pub set_accepted : User → TenantInvitation → TenantInvitation
set_accepted user i = record i { status = accepted; accepted_by = some user.pk }

abbrev pub set_revoked : TenantInvitation → TenantInvitation
set_revoked i = record i { status = revoked }

-- The row that `objects.create` makes, with the defaults of the model.
abbrev pub new_invitation : Env → Tenant → String → String → User → TenantInvitation
new_invitation env tenant email role invited_by = record {
  pk = env.uuid;
  tenant = tenant.pk;
  email = email;
  role = role;
  token = env.token;
  status = pending;
  invited_by = some invited_by.pk;
  accepted_by = none;
  expires_at = env.now + expiry;
}

-- The arguments of the task that `_dispatch_email` queues.
unfoldable pub accept_url : (frontend_url token : String) → String
accept_url frontend_url token =
    append frontend_url (append "/invitations/" (append token "/accept"))

unfoldable pub inviter_name : User → String
inviter_name user =
    let full_name = strip (append user.first_name (append " " user.last_name)) in
    if is_blank full_name then user.email else full_name

unfoldable pub invitation_task : (frontend_url : String) → TenantInvitation → Tenant → User → Task
unfolding accept_url inviter_name
invitation_task frontend_url i tenant invited_by =
    send_invitation_email i.email tenant.name (inviter_name invited_by) i.role
      (accept_url frontend_url i.token)

module _ ⦃orm : Orm⦄ where
  abbrev pub save_invitation : TenantInvitation → (TenantInvitation → TenantInvitation) → Db → Db
  save_invitation i f db = record db {
    invitations = orm.save (with_invitation_pk i.pk) f db.invitations;
  }

  -- Whether the user, if there is one, has a row in the tenant.
  unfoldable pub is_member : Tenant → Option User → Db → Bool
  is_member tenant none db = false
  is_member tenant (some user) db = exists (at_user_tenant user.pk tenant.pk) db.roles

  -- `_dispatch_email`: the call of the Celery task
  unfoldable pub dispatch_email :
      (frontend_url : String) → TenantInvitation → Tenant → (invited_by : User) → Action Unit
  dispatch_email frontend_url i tenant invited_by = modify (λ db. record db {
    queue = db.queue ++ invitation_task frontend_url i tenant invited_by ∷ [];
  })

  -- `send_invitation`
  unfoldable pub send_invitation : Env → Tenant → String → String → User → Action TenantInvitation
  send_invitation env tenant raw_email role invited_by = do
    let email = lower (strip raw_email)
    raise_if (not (is_in role valid_roles)) invalid_role
    existing_user ← gets (λ db. first (with_email email) db.users)
    joined ← gets (is_member tenant existing_user)
    raise_if joined already_member
    waiting ← gets (λ db. exists (pending_for tenant.pk email) db.invitations)
    raise_if waiting pending_exists
    check_member_limit tenant
    modify (λ db. record db {
      invitations = orm.create (new_invitation env tenant email role invited_by) db.invitations;
    })
    dispatch_email env.frontend_url (new_invitation env tenant email role invited_by) tenant
        invited_by
    pure (new_invitation env tenant email role invited_by)

  -- The user whose key a foreign key holds.
  pub by_pk : Option ℕ → Db → Option User
  by_pk none db = none
  by_pk (some id) db = first (with_user_pk id) db.users

  -- `accept_invitation`, from the status test on
  unfoldable pub accept_found : Env → User → TenantInvitation → Tenant → Action TenantInvitation
  accept_found env user i tenant = do
    raise_if (not (is_pending i.status)) invitation_used
    (if is_expired env.now i
        then modify (save_invitation i set_expired) >> raise invitation_expired
        else pure tt)
    joined ← gets (λ db. exists (at_user_tenant user.pk i.tenant) db.roles)
    raise_if joined already_member
    assigned_by ← gets (by_pk i.invited_by)
    assign_role user tenant i.role assigned_by
    modify (save_invitation i (set_accepted user))
    log AuditAction.invitation_accepted none (some tenant) (some user) "TenantInvitation"
        (some i.pk) (("email", i.email) ∷ ("role", i.role) ∷ [])
    pure (set_accepted user i)

  -- `accept_invitation`
  unfoldable pub accept_invitation : Env → String → User → Action TenantInvitation
  accept_invitation env token user = do
    i ← gets (λ db. orm.filter (with_token token) db.invitations) >>= the_only invitation_not_found
    tenant ← gets (λ db. orm.filter (with_pk i.tenant) db.tenants) >>= the_only does_not_exist
    accept_found env user i tenant

  -- `revoke_invitation`
  unfoldable pub revoke_invitation : ℕ → Tenant → User → Action TenantInvitation
  revoke_invitation invitation_id tenant revoked_by = do
    i ←
        gets (λ db. orm.filter (in_tenant invitation_id tenant.pk) db.invitations)
        >>= the_only invitation_not_found
    raise_if (not (is_pending i.status)) invitation_not_pending
    modify (save_invitation i set_revoked)
    log AuditAction.invitation_revoked none (some tenant) (some revoked_by) "TenantInvitation"
        (some i.pk) (("email", i.email) ∷ [])
    pure (set_revoked i)

  -- `list_pending`
  unfoldable pub list_pending : ℕ → Tenant → Db → List TenantInvitation
  list_pending now tenant db = orm.filter (open_in_tenant now tenant.pk) db.invitations
