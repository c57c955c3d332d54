-- ===== src/Demo/Seeding.antt =====
-- What a seed leaves: the demo tenants behind their hosts, and the admin of the first one.
use django_saas_kit.Rbac.Service.{get_role}
use django_saas_kit.Rbac.Roles.{
  assign_role-IsUnique, assign_role_frame, get_role-assign_role, assign_role_rows, IsUnique,
}
use django_saas_kit.Base.{
  ◌∙◌, none, ℕ, String, [], ◌∷◌, ◌≡◌, refl, ◌≤◌, length, arith, some, ap, inl, inr, ==_refl,
  List-cases,
}
use django_saas_kit.Tenants.Middleware.{lookup}
use django_saas_kit.Orm.{Orm, ok}
use django_saas_kit.Orm.Queries.{filter-create, filter-save_stable}
use django_saas_kit.Models.{UserTenantRole, Db, User, Tenant, Domain}
use django_saas_kit.Text.{append}
use django_saas_kit.Rbac.Views.{with_user_pk}
use django_saas_kit.Users.Service.{with_username}
use django_saas_kit.Demo.{
  assign_role, admin, seed, tenant_one, tenant_two, demo_tenants, demo_admin, set_admin,
  fresh_admin, ensure_tenants, ensure_admin_user,
}
use django_saas_kit.Demo.Tenants.{Seedable, StoredTenant, ensure_tenant_lem}
use django_saas_kit.Demo.Serving.{
  seedable_own, Serves-lookup, Apart, Serves, Serves-own, Serves-other, seedable_other,
}

demo-Apart : Apart tenant_one tenant_two
unfolding append
demo-Apart = record { ids = refl; slugs = refl; hosts = refl }

demo-Apart_back : Apart tenant_two tenant_one
unfolding append
demo-Apart_back = record { ids = refl; slugs = refl; hosts = refl }

module _ ⦃orm : Orm⦄ where
  -- The unique columns leave room for the demo tenants and hosts, no more than one user has the name
  -- of the demo admin, and no user has two roles in a tenant.
  pub record CanSeed (db : Db) : Type 0 where
    pub first : Seedable tenant_one db.tenants db.domains
    pub second : Seedable tenant_two db.tenants db.domains
    pub one_admin : length (orm.filter (with_username "admin@tenant1.localhost") db.users) ≤ 1
    pub unique_roles : IsUnique db

  stored_slug :
      (t t' : orm.Table Tenant) (tenant : Tenant)
      → StoredTenant tenant_one t tenant t'
      → tenant.slug ≡ "tenant1"
  stored_slug t t' tenant (inl (new, same, after)) = ap (λ r. r.slug) same
  stored_slug t t' tenant (inr (found, one, same, after)) = ap (λ r. r.slug) same

  both_tenants :
      (db : Db)
      → Seedable tenant_one db.tenants db.domains
      → Seedable tenant_two db.tenants db.domains
      → (t1 t2 : Tenant) × (tenants : orm.Table Tenant) × (domains : orm.Table Domain)
        × (ensure_tenants demo_tenants db
            ≡ (ok (t1 ∷ t2 ∷ []), record db { tenants = tenants; domains = domains }))
        × (t1.slug ≡ "tenant1")
        × Serves tenant_one t1 tenants domains
        × Serves tenant_two t2 tenants domains
        × Seedable tenant_one tenants domains
        × Seedable tenant_two tenants domains
  unfolding ensure_tenants
  both_tenants db free1 free2 =
      let (t1, a, d1, da, run1, pk1, stored1, hosted1) = ensure_tenant_lem tenant_one db free1 in
      let db1 : Db = record db { tenants = a; domains = da } in
      let free2' =
        seedable_other tenant_one tenant_two t1 db.tenants a d1 db.domains da demo-Apart free2 pk1
          stored1 hosted1 in
      let (t2, b, d2, dbs, run2, pk2, stored2, hosted2) = ensure_tenant_lem tenant_two db1 free2' in
      (
        t1,
        t2,
        b,
        dbs,
        rw (run1, run2) refl,
        stored_slug db.tenants a t1 stored1,
        Serves-other tenant_one tenant_two t1 t2 a b d2 da dbs demo-Apart
            (Serves-own tenant_one t1 db.tenants a d1 db.domains da free1 pk1 stored1 hosted1) pk2
            stored2 hosted2,
        Serves-own tenant_two t2 a b d2 da dbs free2' pk2 stored2 hosted2,
        seedable_other tenant_two tenant_one t2 a b d2 da dbs demo-Apart_back
            (seedable_own tenant_one t1 db.tenants a d1 db.domains da free1 pk1 stored1 hosted1) pk2
            stored2 hosted2,
        seedable_own tenant_two t2 a b d2 da dbs free2' pk2 stored2 hosted2,
      )

  admin_lem :
      (pk : ℕ) (make_password : String → String) (db : Db)
      → length (orm.filter (with_username demo_admin.username) db.users) ≤ 1
      → (user : User) × (users : orm.Table User) × (ensure_admin_user pk make_password db
          ≡ (ok user, record db { users = users }))
        × (user.password ≡ some (make_password "password123"))
        × (orm.filter (with_username demo_admin.username) users ≡ user ∷ [])
  unfolding ensure_admin_user
  admin_lem pk make_password db few =
      elim (List-cases (orm.filter (with_username demo_admin.username) db.users)) [
        | inl new ↦ (
          set_admin make_password (fresh_admin pk),
          orm.save (with_user_pk pk) (set_admin make_password)
              (orm.create (fresh_admin pk) db.users),
          rw new refl,
          refl,
          rw
              (
                filter-save_stable (with_username demo_admin.username) (with_user_pk pk)
                    (set_admin make_password) (λ r. refl) (orm.create (fresh_admin pk) db.users),
                filter-create,
                new,
                ==_refl pk,
              )
              refl,
        )
        | inr (inl (user, one)) ↦ (
          set_admin make_password user,
          orm.save (with_user_pk user.pk) (set_admin make_password) db.users,
          rw one refl,
          refl,
          rw
              (
                filter-save_stable (with_username demo_admin.username) (with_user_pk user.pk)
                    (set_admin make_password) (λ r. refl) db.users,
                one,
                ==_refl user.pk,
              )
              refl,
        )
        | inr (inr (u, u', l, many)) ↦ absurd (let k = rw many at few in omega arith)
      ]

  -- The role is given, and no other table than those of the roles and the audit log is written.
  role_given :
      (user : User) (tenant : Tenant) (db : Db)
      → IsUnique db
      → (row : UserTenantRole) × (db' : Db) × (assign_role user tenant admin none db
          ≡ (ok row, db'))
        × ((db'.tenants ≡ db.tenants) × (db'.domains ≡ db.domains) × (db'.users ≡ db.users))
        × (get_role user tenant db' ≡ some "admin")
        × IsUnique db'
  role_given user tenant db unique =
      let db' : Db = (assign_role user tenant admin none db).1 in
      let (row, rows, held, given) =
        assign_role_rows user tenant admin none db refl (unique user.pk tenant.pk) in
      let framed = assign_role_frame user tenant admin none db in
      (
        row,
        db',
        ap (λ r. (r, db')) given,
        (ap (λ d. d.tenants) framed, ap (λ d. d.domains) framed, ap (λ d. d.users) framed),
        get_role-assign_role user tenant admin none db refl unique user tenant
            ∙ rw (==_refl user.pk, ==_refl tenant.pk) refl,
        assign_role-IsUnique user tenant admin none db unique,
      )

  -- Where the unique columns leave room for the demo tenants and hosts, no more than one user has
  -- the name of the demo admin, and no user has two roles in a tenant, a seed succeeds: its hosts
  -- then lead to the two tenants, one user has the name of the admin and the hash of its password,
  -- and it is an admin of the first tenant. These conditions hold again after it, so that it can be
  -- repeated.
  pub seed_serves :
      (pk : ℕ) (make_password : String → String) (db : Db)
      → CanSeed db
      → (t1 t2 : Tenant) × (user : User) × (db' : Db) × (seed pk make_password db
          ≡ (ok (record { tenants = t1 ∷ t2 ∷ []; admin_user = user }), db'))
        × (lookup "tenant1.localhost" db' ≡ some t1)
        × (lookup "tenant2.localhost" db' ≡ some t2)
        × (user.password ≡ some (make_password "password123"))
        × (orm.filter (with_username "admin@tenant1.localhost") db'.users ≡ user ∷ [])
        × (get_role user t1 db' ≡ some "admin")
        × CanSeed db'
  unfolding seed append
  seed_serves pk make_password db ready =
      let (t1, t2, tenants, domains, stored, slug, serves1, serves2, again1, again2) =
        both_tenants db ready.first ready.second in
      let db1 : Db = record db { tenants = tenants; domains = domains } in
      let (user, users, made, hashed, named) = admin_lem pk make_password db1 ready.one_admin in
      let db2 : Db = record db1 { users = users } in
      let (row, db', given, (same_tenants, same_domains, same_users), role, unique) =
        role_given user t1 db2 ready.unique_roles in
      (
        t1,
        t2,
        user,
        db',
        rw (orm.atomic_lem, stored, made, slug, given) refl,
        Serves-lookup tenant_one t1 db' (rw (same_tenants, same_domains) serves1),
        Serves-lookup tenant_two t2 db' (rw (same_tenants, same_domains) serves2),
        hashed,
        rw same_users named,
        role,
        record {
          first = rw (same_tenants, same_domains) again1;
          second = rw (same_tenants, same_domains) again2;
          one_admin = rw (same_users, named) (omega arith);
          unique_roles = unique;
        },
      )
