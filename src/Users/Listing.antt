-- ===== src/Users/Listing.antt =====
-- Whose rows the list views of the users and of the audit log show.
use django_saas_kit.Action.{permission_denied}
use django_saas_kit.Orm.Queries.{exists, first}
use django_saas_kit.Rbac.Permissions.{with_pk, resolve_tenant, has_permission, guarded}
use django_saas_kit.Base.{
  inr, inl, Bool-cases, if◌then◌else◌, Bool, Option, String, none, some, [], ◌∷◌, ◌≡◌, refl,
}
use django_saas_kit.Orm.{err, Orm, ok}
use django_saas_kit.Models.{Db, User, Tenant}
use django_saas_kit.Http.{Request, reply, authenticated}
use django_saas_kit.Users.Views.{user_list_view}
use django_saas_kit.Audit.Views.{audit_list_view, audit_queryset}
use django_saas_kit.Rbac.Service.{at_user_tenant, has_role, owner, admin}

pub list_views-cross_tenants :
    ⦃orm : Orm⦄
    → (icontains : (text part : String) → Bool) (action actor : Option String) (request : Request)
      (db : Db) (user : User) (own victim : Tenant)
    → request.user ≡ authenticated user
    → request.url_tenant ≡ none
    → request.header_tenant ≡ some own.pk
    → request.tenant ≡ some victim
    → first (with_pk own.pk) db.tenants ≡ some own
    → let asked = has_role (authenticated user) own (owner ∷ admin ∷ []) db in
      let members = orm.filter (λ u. exists (at_user_tenant u.pk victim.pk) db.roles) db.users in
      (user_list_view request db
        ≡ (if asked then (ok (reply 200 members), db) else (err permission_denied, db)))
      × (audit_list_view icontains action actor request db ≡ (
          if asked
          then (ok (reply 200 (audit_queryset icontains action actor (some victim) db)), db)
          else (err permission_denied, db)))
unfolding user_list_view audit_list_view guarded has_permission resolve_tenant
list_views-cross_tenants icontains action actor request db user own victim who no_url header host
      found =
    elim (Bool-cases (has_role (authenticated user) own (owner ∷ admin ∷ []) db)) [
      | inl held ↦ (
        rw (who, no_url, header, host, found, held, resolve_tenant) refl,
        rw (who, no_url, header, host, found, held, resolve_tenant) refl,
      )
      | inr lacks ↦ (
        rw (who, no_url, header, found, lacks, resolve_tenant) refl,
        rw (who, no_url, header, found, lacks, resolve_tenant) refl,
      )
    ]
