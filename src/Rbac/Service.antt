-- ===== src/Rbac/Service.antt =====
-- `RBACService`. The table of roles has one row for each user and tenant.
use django_saas_kit.Base.{
  ℕ, String, Bool, true, false, not, ◌&&◌, ◌||◌, Option, none, some, List, [], ◌∷◌, str_eq, ◌==◌,
  ltb, if◌then◌else◌,
}
use django_saas_kit.Orm.{Orm}
use django_saas_kit.Orm.Queries.{exists, first, count}
use django_saas_kit.Models.{Db, User, Tenant, UserTenantRole, AuditAction}
use django_saas_kit.Action.{
  Action, ◌>>=◌, ◌>>◌, pure, gets, modify, raise, raise_if, invalid_role, multiple_objects_returned,
}
use django_saas_kit.Http.{Requester, anonymous, authenticated}
use django_saas_kit.Audit.{log}

-- `RoleChoices`
abbrev pub owner : String
owner = "owner"

abbrev pub admin : String
admin = "admin"

abbrev pub member : String
member = "member"

-- `x in l`, for texts
abbrev pub is_in : String → List String → Bool
is_in x [] = false
is_in x (y ∷ l) = str_eq x y || is_in x l

-- `RBACService.VALID_ROLES`
abbrev pub valid_roles : List String
valid_roles = owner ∷ admin ∷ member ∷ []

-- The lookups on `UserTenantRole`.
abbrev pub at_user_tenant : ℕ → ℕ → UserTenantRole → Bool
at_user_tenant user tenant r = r.user == user && r.tenant == tenant

abbrev pub at_tenant : ℕ → UserTenantRole → Bool
at_tenant tenant r = r.tenant == tenant

abbrev pub at_any_role : ℕ → ℕ → List String → UserTenantRole → Bool
at_any_role user tenant roles r = (r.user == user && r.tenant == tenant) && is_in r.role roles

abbrev pub pk_of : Option User → Option ℕ
pk_of none = none
pk_of (some user) = some user.pk

-- The row that `update_or_create` creates, and the `defaults` that it assigns.
abbrev pub new_role : User → Tenant → String → Option ℕ → UserTenantRole
new_role user tenant role by = record {
  user = user.pk;
  tenant = tenant.pk;
  role = role;
  assigned_by = by;
}

abbrev pub assigned : String → Option ℕ → UserTenantRole → UserTenantRole
assigned role by r = record r { role = role; assigned_by = by }

module _ ⦃orm : Orm⦄ where
  -- `update_or_create` on the rows that its lookup has found
  unfoldable pub upsert_role :
      User → Tenant → String → Option ℕ → List UserTenantRole → Action UserTenantRole
  upsert_role user tenant role by [] = do
    modify (λ db. record db { roles = orm.create (new_role user tenant role by) db.roles })
    pure (new_role user tenant role by)
  upsert_role user tenant role by (found ∷ []) = do
    modify (λ db. record db {
      roles = orm.save (at_user_tenant user.pk tenant.pk) (assigned role by) db.roles;
    })
    pure (assigned role by found)
  upsert_role user tenant role by (r ∷ r' ∷ l) = raise multiple_objects_returned

  unfoldable pub assign_role : User → Tenant → String → Option User → Action UserTenantRole
  assign_role user tenant role assigned_by = do
    raise_if (not (is_in role valid_roles)) invalid_role
    found ← gets (λ db. orm.filter (at_user_tenant user.pk tenant.pk) db.roles)
    obj ← upsert_role user tenant role (pk_of assigned_by) found
    log AuditAction.role_assigned none (some tenant) assigned_by "User" (some user.pk)
        (("role", role) ∷ ("target_email", user.email) ∷ [])
    pure obj

  unfoldable pub revoke_role : User → Tenant → Action Bool
  revoke_role user tenant = do
    deleted ← gets (λ db. count (at_user_tenant user.pk tenant.pk) db.roles)
    modify (λ db. record db { roles = orm.delete (at_user_tenant user.pk tenant.pk) db.roles })
    if ltb 0 deleted
        then (do
          log AuditAction.role_revoked none (some tenant) none "User" (some user.pk)
              (("target_email", user.email) ∷ [])
          pure true)
        else pure false

  unfoldable pub get_role : User → Tenant → Db → Option String
  get_role user tenant db = elim (first (at_user_tenant user.pk tenant.pk) db.roles) [
    | none ↦ none
    | some row ↦ some row.role
  ]

  unfoldable pub has_role : Requester → Tenant → List String → Db → Bool
  has_role anonymous tenant roles db = false
  has_role (authenticated user) tenant roles db =
      if user.is_superuser then true else exists (at_any_role user.pk tenant.pk roles) db.roles
