-- ===== src/Rbac/Views.antt =====
-- apps/rbac/views.py. `RoleAssignSerializer` is the REST framework's but for `validate_user_id`: a
-- view takes the user id and the role that the body gives.
use django_saas_kit.Base.{ℕ, String, Bool, not, ◌==◌, Option, none, some, List, [], ◌∷◌}
use django_saas_kit.Orm.{Orm}
use django_saas_kit.Orm.Queries.{first}
use django_saas_kit.Models.{Tenant, User, UserTenantRole}
use django_saas_kit.Action.{
  Action, ◌>>=◌, ◌>>◌, gets, pure, raise, raise_if, http404, invalid_input, Error,
}
use django_saas_kit.Http.{Request, Requester, anonymous, authenticated, Reply, reply}
use django_saas_kit.Rbac.Service.{
  owner, admin, member, is_in, valid_roles, at_tenant, assign_role, revoke_role,
}
use django_saas_kit.Rbac.Permissions.{with_pk, guarded}

abbrev pub with_user_pk : ℕ → User → Bool
with_user_pk id u = u.pk == id

abbrev pub caller : Requester → Option User
caller anonymous = none
caller (authenticated user) = some user

module _ ⦃orm : Orm⦄ where
  abbrev pub or_raise : {A : Type 0} → Error → Option A → Action A
  or_raise e none = raise e
  or_raise e (some a) = pure a

  -- `get_object_or_404(Tenant, id=tenant_id)`
  abbrev pub get_tenant_or_404 : ℕ → Action Tenant
  get_tenant_or_404 id = gets (λ db. first (with_pk id) db.tenants) >>= or_raise http404

  -- `validate_user_id` of the serializers
  abbrev pub validate_user_id : ℕ → Action User
  validate_user_id id = gets (λ db. first (with_user_pk id) db.users) >>= or_raise invalid_input

  list_roles : ℕ → Request → Action (Reply (List UserTenantRole))
  list_roles tenant_id request = do
    tenant ← get_tenant_or_404 tenant_id
    roles ← gets (λ db. orm.filter (at_tenant tenant.pk) db.roles)
    pure (reply 200 roles)

  -- `TenantRoleListView.get`
  unfoldable pub tenant_role_list_view : ℕ → Request → Action (Reply (List UserTenantRole))
  unfolding list_roles guarded
  tenant_role_list_view tenant_id request =
      guarded (owner ∷ admin ∷ member ∷ []) (list_roles tenant_id)
        (record request { url_tenant = some tenant_id })

  pub assign : ℕ → ℕ → String → Request → Action (Reply UserTenantRole)
  assign tenant_id user_id role request = do
    tenant ← get_tenant_or_404 tenant_id
    user ← validate_user_id user_id
    raise_if (not (is_in role valid_roles)) invalid_input
    user_role ← assign_role user tenant role (caller request.user)
    pure (reply 201 user_role)

  -- `AssignRoleView.post`
  unfoldable pub assign_role_view : ℕ → ℕ → String → Request → Action (Reply UserTenantRole)
  unfolding assign guarded
  assign_role_view tenant_id user_id role request =
      guarded (owner ∷ admin ∷ []) (assign tenant_id user_id role)
        (record request { url_tenant = some tenant_id })

  pub revoke : ℕ → ℕ → Request → Action (Reply Unit)
  revoke tenant_id user_id request = do
    tenant ← get_tenant_or_404 tenant_id
    user ← validate_user_id user_id
    revoke_role user tenant
    pure (reply 204 tt)

  -- `RevokeRoleView.post`
  unfoldable pub revoke_role_view : ℕ → ℕ → Request → Action (Reply Unit)
  unfolding revoke guarded
  revoke_role_view tenant_id user_id request =
      guarded (owner ∷ admin ∷ []) (revoke tenant_id user_id)
        (record request { url_tenant = some tenant_id })
