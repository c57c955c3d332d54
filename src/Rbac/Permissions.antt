-- ===== src/Rbac/Permissions.antt =====
-- apps/rbac/permissions.py: the tenant of a request, the decorator and the permission class.
use django_saas_kit.Base.{
  ℕ, String, Bool, true, false, not, ◌==◌, Option, none, some, List, is_empty, if◌then◌else◌,
}
use django_saas_kit.Orm.{Orm}
use django_saas_kit.Orm.Queries.{first}
use django_saas_kit.Models.{Db, Tenant}
use django_saas_kit.Action.{
  Action, ◌>>=◌, ◌>>◌, gets, raise_if, not_authenticated, permission_denied,
}
use django_saas_kit.Http.{Request, Requester, anonymous, authenticated}
use django_saas_kit.Rbac.Service.{has_role}

-- The lookup of a tenant by its primary key, which no two rows share.
abbrev pub with_pk : ℕ → Tenant → Bool
with_pk id t = t.pk == id

-- `kwargs.get("tenant_id") or request.headers.get("X-Tenant-ID")`
abbrev pub given_tenant : Request → Option ℕ
given_tenant request = elim request.url_tenant [ some id ↦ some id | none ↦ request.header_tenant ]

module _ ⦃orm : Orm⦄ where
  unfoldable pub resolve_tenant : Request → Db → Option Tenant
  resolve_tenant request db = elim (given_tenant request) [
    | some id ↦ first (with_pk id) db.tenants
    | none ↦ request.tenant
  ]

  role_in : Request → List String → Db → Option Tenant → Bool
  role_in request roles db none = false
  role_in request roles db (some tenant) = has_role request.user tenant roles db

  -- `require_role(roles)(view_func)`
  unfoldable pub require_role :
      {A : Type 0} → List String → (Request → Action A) → Request → Action A
  unfolding role_in
  require_role roles view_func request = do
    allowed ← gets (λ db. role_in request roles db (resolve_tenant request db))
    raise_if (not allowed) permission_denied
    view_func request

  -- `HasRolePermission.has_permission`
  unfoldable pub has_permission : List String → Request → Db → Bool
  unfolding role_in
  has_permission required_roles request db =
      if is_empty required_roles
      then true
      else role_in request required_roles db (resolve_tenant request db)

  is_authenticated : Requester → Bool
  is_authenticated anonymous = false
  is_authenticated (authenticated user) = true

  -- A view with `permission_classes = [IsAuthenticated, HasRolePermission]`.
  unfoldable pub guarded : {A : Type 0} → List String → (Request → Action A) → Request → Action A
  unfolding is_authenticated
  guarded required_roles handler request = do
    raise_if (not (is_authenticated request.user)) not_authenticated
    allowed ← gets (has_permission required_roles request)
    raise_if (not allowed) permission_denied
    handler request
