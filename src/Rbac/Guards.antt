-- ===== src/Rbac/Guards.antt =====
-- Who may pass the views and the decorator.
use django_saas_kit.Action.{Action}
use django_saas_kit.Rbac.Views.{revoke, assign, revoke_role_view, assign_role_view}
use django_saas_kit.Orm.Queries.{first}
use django_saas_kit.Base.{
  inr, Bool-cases, none, [], inl, Option, true, ◌⊎◌, some, ◌∷◌, ◌≡◌, ℕ, String, List, refl,
}
use django_saas_kit.Orm.{Orm}
use django_saas_kit.Models.{Db, User, Tenant}
use django_saas_kit.Http.{Request, Requester, anonymous, authenticated}
use django_saas_kit.Rbac.Service.{admin, owner, has_role}
use django_saas_kit.Rbac.Permissions.{with_pk, resolve_tenant, guarded, has_permission}

module _ ⦃orm : Orm⦄ where
  -- The caller is a user that is a superuser or holds one of `roles` in the tenant with this key.
  abbrev pub MayAct : List String → Request → ℕ → Db → Type 0
  MayAct roles request tenant_id db =
      (user : User) × (tenant : Tenant) × (request.user ≡ authenticated user)
      × (first (with_pk tenant_id) db.tenants ≡ some tenant)
      × (has_role (authenticated user) tenant roles db ≡ true)

  guarded_cases :
      {A : Type 0} (role : String) (others : List String) (handler : Request → Action A) (id : ℕ)
      (request : Request) (db : Db)
      → ((guarded (role ∷ others) handler (record request { url_tenant = some id }) db).1 ≡ db)
        ⊎ MayAct (role ∷ others) request id db
  unfolding guarded has_permission resolve_tenant
  guarded_cases role others handler id request db =
      go request.user refl (first (with_pk id) db.tenants) refl
    where
      go :
          (who : Requester)
          → request.user ≡ who
          → (found : Option Tenant) → first (with_pk id) db.tenants ≡ found
          → ((guarded (role ∷ others) handler (record request { url_tenant = some id }) db).1 ≡ db)
            ⊎ MayAct (role ∷ others) request id db
      go anonymous e found f = inl (rw e)
      go (authenticated user) e none f = inl (rw (e, f, resolve_tenant))
      go (authenticated user) e (some tenant) f =
          elim (Bool-cases (has_role (authenticated user) tenant (role ∷ others) db)) [
            | inl held ↦ inr (user, tenant, e, f, held)
            | inr lacks ↦ inl (rw (e, f, lacks, resolve_tenant))
          ]

  -- `AssignRoleView` and `RevokeRoleView` write nothing unless the caller is authenticated and is a
  -- superuser, or an owner or admin of the very tenant in the URL, whatever the other headers say.
  pub role_views_guarded :
      (id user_id : ℕ) (role : String) (request : Request) (db : Db)
      → (((assign_role_view id user_id role request db).1 ≡ db)
          ⊎ MayAct (owner ∷ admin ∷ []) request id db)
        × (((revoke_role_view id user_id request db).1 ≡ db)
            ⊎ MayAct (owner ∷ admin ∷ []) request id db)
  unfolding assign_role_view revoke_role_view
  role_views_guarded id user_id role request db = (
    guarded_cases owner (admin ∷ []) (assign id user_id role) id request db,
    guarded_cases owner (admin ∷ []) (revoke id user_id) id request db,
  )
