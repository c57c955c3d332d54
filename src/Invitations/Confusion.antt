-- ===== src/Invitations/Confusion.antt =====
-- In which tenant the invitation views demand a role, and in which tenant they then act.
use django_saas_kit.Text.{strip, lower}
use django_saas_kit.Invitations.Sending.{send_invitation_exact, Sendable}
use django_saas_kit.Orm.Queries.{first}
use django_saas_kit.Action.{permission_denied, Action}
use django_saas_kit.Rbac.Service.{admin, has_role, owner}
use django_saas_kit.Rbac.Permissions.{with_pk, resolve_tenant, has_permission, guarded}
use django_saas_kit.Invitations.Views.{invitation_revoke_view, invitation_create_view}
use django_saas_kit.Models.{Tenant, User, Db}
use django_saas_kit.Http.{reply, anonymous, anonymous, Requester, authenticated, Request}
use django_saas_kit.Invitations.Service.{invitation_task, new_invitation, Env}
use django_saas_kit.Orm.{err, ok, Orm}
use django_saas_kit.Base.{
  ◌++◌, if◌then◌else◌, Bool-cases, Option, true, ◌⊎◌, List, ℕ, String, [], ◌∷◌, refl, ◌≡◌, none,
  some, inl, inr,
}

module _ ⦃orm : Orm⦄ (env : Env) (email role : String) (id : ℕ) (request : Request) (db : Db) where
  -- The caller is a user that is a superuser or holds one of `roles` in the request's tenant.
  abbrev pub MayActHere : List String → Type 0
  MayActHere roles =
      (user : User) × (tenant : Tenant) × (request.user ≡ authenticated user)
      × (request.tenant ≡ some tenant)
      × (has_role (authenticated user) tenant roles db ≡ true)

  here_cases :
      {A : Type 0} (r : String) (others : List String) (handler : Request → Action A)
      → request.url_tenant ≡ none
      → request.header_tenant ≡ none
      → ((guarded (r ∷ others) handler request db).1 ≡ db) ⊎ MayActHere (r ∷ others)
  unfolding guarded has_permission resolve_tenant
  here_cases r others handler no_url no_header = go request.user refl request.tenant refl
    where
      go :
          (who : Requester)
          → request.user ≡ who
          → (found : Option Tenant) → request.tenant ≡ found
          → ((guarded (r ∷ others) handler request db).1 ≡ db) ⊎ MayActHere (r ∷ others)
      go anonymous e found f = inl (rw e)
      go (authenticated user) e none f = inl (rw (e, no_url, no_header, f, resolve_tenant))
      go (authenticated user) e (some tenant) f =
          elim (Bool-cases (has_role (authenticated user) tenant (r ∷ others) db)) [
            | inl held ↦ inr (user, tenant, e, f, held)
            | inr lacks ↦ inl (rw (e, no_url, no_header, f, lacks, resolve_tenant))
          ]

  -- A request that names no tenant but by its host: creating or revoking an invitation writes
  -- nothing unless the caller is a superuser, or an owner or admin of that tenant.
  pub invitation_views_guarded :
      request.url_tenant ≡ none
      → request.header_tenant ≡ none
      → (((invitation_create_view env email role request db).1 ≡ db)
          ⊎ MayActHere (owner ∷ admin ∷ []))
        × (((invitation_revoke_view id request db).1 ≡ db) ⊎ MayActHere (owner ∷ admin ∷ []))
  unfolding invitation_create_view invitation_revoke_view
  invitation_views_guarded no_url no_header = (
    here_cases owner (admin ∷ []) _ no_url no_header,
    here_cases owner (admin ∷ []) _ no_url no_header,
  )

  -- With the header `X-Tenant-ID`, and no tenant in the URL, the create view asks for the role of an
  -- owner or admin in the tenant `own` of the header and in no other: without it the view refuses,
  -- and writes nothing. With it, or for a superuser, an invitation that may be sent for the tenant
  -- `victim` of the host is stored for that tenant, with the role that the caller names, and its
  -- email is queued, whatever the roles of the caller there are.
  pub create_view-crosses_tenants :
      (user : User) (own victim : Tenant)
      → request.user ≡ authenticated user
      → request.url_tenant ≡ none
      → request.header_tenant ≡ some own.pk
      → request.tenant ≡ some victim
      → first (with_pk own.pk) db.tenants ≡ some own
      → Sendable env victim email role user db
      → let i = new_invitation env victim (lower (strip email)) role user in
        invitation_create_view env email role request db ≡ (
          if has_role (authenticated user) own (owner ∷ admin ∷ []) db
          then (
            ok (reply 201 i),
            record db {
              invitations = orm.create i db.invitations;
              queue = db.queue ++ invitation_task env.frontend_url i victim user ∷ [];
            },
          )
          else (err permission_denied, db))
  unfolding invitation_create_view guarded has_permission resolve_tenant
  create_view-crosses_tenants user own victim who no_url header host found sendable =
      elim (Bool-cases (has_role (authenticated user) own (owner ∷ admin ∷ []) db)) [
        | inr lacks ↦ rw (who, no_url, header, found, lacks, resolve_tenant) refl
        | inl held ↦ elim (send_invitation_exact env victim email role user db) [
          | inr (never, e, refused) ↦ absurd (never sendable)
          | inl (may, sent) ↦ rw (who, no_url, header, host, found, held, resolve_tenant, sent) refl
        ]
      ]
