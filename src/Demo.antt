-- ===== src/Demo.antt =====
-- services/demo/seed_service.py and examples/demo_config.py: the demo tenants and their admin. The
-- hash of the password and the key of a new user are arguments. A write that would repeat a value of
-- a unique column raises, as the database does.
pub mod Upserts
pub mod Tenants
pub mod Serving
pub mod Seeding
mod Tests
use django_saas_kit.Base.{
  if◌then◌else◌, ℕ, String, Bool, true, false, not, Option, none, some, List, [], ◌∷◌, ◌==◌, ◌&&◌,
  ◌||◌, str_eq,
}
use django_saas_kit.Orm.{Orm, Result, ok, err}
use django_saas_kit.Orm.Queries.{exists}
use django_saas_kit.Models.{User, Tenant, Domain}
use django_saas_kit.Action.{
  Action, Error, pure, raise, modify, gets, raise_if, ◌>>=◌, ◌>>◌, multiple_objects_returned,
  integrity_error, stop_iteration,
}
use django_saas_kit.Text.{append}
use django_saas_kit.Rbac.Service.{assign_role, admin}
use django_saas_kit.Rbac.Permissions.{with_pk}
use django_saas_kit.Rbac.Views.{with_user_pk}
use django_saas_kit.Users.Service.{with_username}

pub record DemoTenantSpec : Type 0 where
  pub id : ℕ
  pub name : String
  pub slug : String

pub record DemoAdminSpec : Type 0 where
  pub email : String
  pub username : String
  pub password : String
  pub first_name : String
  pub last_name : String
  pub role : String

-- The UUIDs as numbers.
abbrev pub tenant1_id : ℕ
tenant1_id = 302240678275694148452353

abbrev pub tenant2_id : ℕ
tenant2_id = 302240678275694148452354

abbrev pub tenant_one : DemoTenantSpec
tenant_one = record { id = tenant1_id; name = "Tenant One"; slug = "tenant1" }

abbrev pub tenant_two : DemoTenantSpec
tenant_two = record { id = tenant2_id; name = "Tenant Two"; slug = "tenant2" }

abbrev pub demo_tenants : List DemoTenantSpec
demo_tenants = tenant_one ∷ tenant_two ∷ []

abbrev pub demo_admin : DemoAdminSpec
demo_admin = record {
  email = "admin@tenant1.localhost";
  username = "admin@tenant1.localhost";
  password = "password123";
  first_name = "Demo";
  last_name = "Admin";
  role = "admin";
}

pub record DemoSeedResult : Type 0 where
  pub tenants : List Tenant
  pub admin_user : User

-- The rows that are created, and the `defaults` that are assigned.
abbrev pub spec_tenant : DemoTenantSpec → Tenant
spec_tenant spec = record {
  pk = spec.id;
  name = spec.name;
  slug = spec.slug;
  schema_name = spec.slug;
  is_active = true;
}

abbrev pub assign_spec : DemoTenantSpec → Tenant → Tenant
assign_spec spec t = record t { name = spec.name; slug = spec.slug; schema_name = spec.slug }

abbrev pub spec_host : DemoTenantSpec → String
spec_host spec = append spec.slug ".localhost"

abbrev pub spec_domain : Tenant → DemoTenantSpec → Domain
spec_domain tenant spec = record { tenant = tenant.pk; domain = spec_host spec; is_primary = true }

abbrev pub set_primary : Domain → Domain
set_primary d = record d { is_primary = true }

abbrev pub at_tenant_host : ℕ → String → Domain → Bool
at_tenant_host tenant host d = d.tenant == tenant && str_eq d.domain host

-- The other rows with a value of a unique column.
abbrev pub takes_slug : DemoTenantSpec → Tenant → Bool
takes_slug spec t =
    not (t.pk == spec.id) && (str_eq t.slug spec.slug || str_eq t.schema_name spec.slug)

abbrev pub takes_host : ℕ → String → Domain → Bool
takes_host tenant host d = not (d.tenant == tenant) && str_eq d.domain host

abbrev pub first_with_slug : String → List Tenant → Option Tenant
first_with_slug slug [] = none
first_with_slug slug (t ∷ l) =
    let rest = first_with_slug slug l in if str_eq t.slug slug then some t else rest

-- The row of the admin as `get_or_create` makes it, and the assignments after it.
abbrev pub fresh_admin : ℕ → User
fresh_admin pk = record {
  pk = pk;
  username = demo_admin.username;
  email = demo_admin.email;
  first_name = demo_admin.first_name;
  last_name = demo_admin.last_name;
  password = none;
  is_active = true;
  is_superuser = false;
}

abbrev pub set_admin : (String → String) → User → User
set_admin make_password u = record u {
  email = demo_admin.email;
  first_name = demo_admin.first_name;
  last_name = demo_admin.last_name;
  password = some (make_password demo_admin.password);
}

module _ ⦃orm : Orm⦄ where
  -- `update_or_create` on the rows that its lookup has found
  unfoldable pub update_or_create :
      {R : Type 0}
      → (R → Bool)
      → (row : R) → (defaults : R → R) → List R
      → orm.Table R
      → Result Error R × orm.Table R
  update_or_create p row defaults [] t = (ok row, orm.create row t)
  update_or_create p row defaults (r ∷ []) t = (ok (defaults r), orm.save p defaults t)
  update_or_create p row defaults (r ∷ r' ∷ l) t = (err multiple_objects_returned, t)

  -- The call for a tenant, and for its domain.
  abbrev pub store_tenant : DemoTenantSpec → Action Tenant
  store_tenant spec db =
      let (r, tenants) =
        update_or_create (with_pk spec.id) (spec_tenant spec) (assign_spec spec)
          (orm.filter (with_pk spec.id) db.tenants) db.tenants in
      (r, record db { tenants = tenants })

  abbrev pub store_domain : Tenant → DemoTenantSpec → Action Domain
  store_domain tenant spec db =
      let own = at_tenant_host tenant.pk (spec_host spec) in
      let (r, domains) =
        update_or_create own (spec_domain tenant spec) set_primary (orm.filter own db.domains)
          db.domains in
      (r, record db { domains = domains })

  -- The body of the loop, for the domain and for both.
  unfoldable pub ensure_domain : DemoTenantSpec → Tenant → Action Tenant
  unfolding update_or_create
  ensure_domain spec tenant = do
    host_taken ← gets (λ db. exists (takes_host tenant.pk (spec_host spec)) db.domains)
    raise_if host_taken integrity_error
    store_domain tenant spec
    pure tenant

  unfoldable pub ensure_tenant : DemoTenantSpec → Action Tenant
  unfolding update_or_create ensure_domain
  ensure_tenant spec = do
    slug_taken ← gets (λ db. exists (takes_slug spec) db.tenants)
    raise_if slug_taken integrity_error
    tenant ← store_tenant spec
    ensure_domain spec tenant

  -- `DemoSeedService._ensure_tenants`
  unfoldable pub ensure_tenants : List DemoTenantSpec → Action (List Tenant)
  unfolding ensure_tenant
  ensure_tenants [] = pure []
  ensure_tenants (spec ∷ specs) = do
    tenant ← ensure_tenant spec
    tenants ← ensure_tenants specs
    pure (tenant ∷ tenants)

  abbrev pub get_or_create_admin : ℕ → List User → Action User
  get_or_create_admin pk [] = do
    modify (λ db. record db { users = orm.create (fresh_admin pk) db.users })
    pure (fresh_admin pk)
  get_or_create_admin pk (u ∷ []) = pure u
  get_or_create_admin pk (u ∷ u' ∷ l) = raise multiple_objects_returned

  -- `DemoSeedService._ensure_admin_user`
  unfoldable pub ensure_admin_user : ℕ → (String → String) → Action User
  ensure_admin_user pk make_password = do
    found ← gets (λ db. orm.filter (with_username demo_admin.username) db.users)
    user ← get_or_create_admin pk found
    modify (λ db. record db {
      users = orm.save (with_user_pk user.pk) (set_admin make_password) db.users;
    })
    pure (set_admin make_password user)

  abbrev pub give_role : User → Option Tenant → Action Unit
  give_role user none = raise stop_iteration
  give_role user (some tenant) = do assign_role user tenant admin none; pure tt

  -- `DemoSeedService.seed`
  unfoldable pub seed : ℕ → (String → String) → Action DemoSeedResult
  unfolding ensure_tenants ensure_admin_user assign_role
  seed pk make_password = orm.atomic (do
    tenants ← ensure_tenants demo_tenants
    admin_user ← ensure_admin_user pk make_password
    give_role admin_user (first_with_slug "tenant1" tenants)
    pure (record { tenants = tenants; admin_user = admin_user }))
