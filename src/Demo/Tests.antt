-- ===== src/Demo/Tests.antt =====
-- A seed of a database with tenants and users of its own.
use django_saas_kit.Base.{[], ◌∷◌, ◌≡◌, refl, some, arith, select}
use django_saas_kit.Orm.{ok, memory}
use django_saas_kit.Models.{Db, User, Tenant}
use django_saas_kit.Text.{append}
use django_saas_kit.Fixtures.{small_db}
use django_saas_kit.Rbac.Service.{get_role}
use django_saas_kit.Users.Service.{with_username}
use django_saas_kit.Tenants.Middleware.{lookup}
use django_saas_kit.Demo.{seed}
use django_saas_kit.Demo.Seeding.{seed_serves, CanSeed}

small-CanSeed : CanSeed small_db
unfolding select append
small-CanSeed = record {
  first = record {
    slug_free = refl;
    one_tenant = omega arith;
    host_free = refl;
    one_domain = omega arith;
  };
  second = record {
    slug_free = refl;
    one_tenant = omega arith;
    host_free = refl;
    one_domain = omega arith;
  };
  one_admin = omega arith;
  unique_roles = λ u t. ground arith;
}

seed_serves_example :
    (t1 t2 : Tenant) × (user : User) × (db' : Db) × (seed 50 (append "hashed:") small_db
      ≡ (ok (record { tenants = t1 ∷ t2 ∷ []; admin_user = user }), db'))
    × (lookup "tenant1.localhost" db' ≡ some t1)
    × (lookup "tenant2.localhost" db' ≡ some t2)
    × (user.password ≡ some (append "hashed:" "password123"))
    × (memory.filter (with_username "admin@tenant1.localhost") db'.users ≡ user ∷ [])
    × (get_role user t1 db' ≡ some "admin")
    × CanSeed db'
seed_serves_example = seed_serves 50 (append "hashed:") small_db small-CanSeed
