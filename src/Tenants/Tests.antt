-- ===== src/Tenants/Tests.antt =====
-- Runs of the tenant service and of the middleware on concrete rows.
use django_saas_kit.Action.{Error}
use django_saas_kit.Tenants.Serving.{middleware_serves}
use django_saas_kit.Tenants.Freshness.{change_seen, resolve_all}
use django_saas_kit.Text.{replace_char, lower, strip, starts_with, before}
use django_saas_kit.Fixtures.{alice, globex, request_of, acme, small_db}
use django_saas_kit.Rbac.Permissions.{with_pk}
use django_saas_kit.Tenants.Service.{
  new_domain, matches_slug, new_tenant, create_tenant, normalized,
}
use django_saas_kit.Tenants.Creation.{
  create_tenant_exact, Creatable, of_tenant_key, IsUniquelyNamed,
}
use django_saas_kit.Tenants.Middleware.{
  Cached, response, middleware, exempt_prefixes, lookup, starts_with_any, Server, resolve_host,
}
use django_saas_kit.Models.{Tenant, Db}
use django_saas_kit.Http.{Request}
use django_saas_kit.Orm.{err, ok, memory}
use django_saas_kit.Cache.{local_memory}
use django_saas_kit.Base.{
  String, ℕ, inl, ◌⊎◌, true, false, arith, Option, select, [], ◌∷◌, refl, ◌≡◌, none, some,
}

-- Two tenants with a domain each; `acme` is deactivated in the second database.
abbrev hosted_db : Db
hosted_db = record small_db {
  domains =
      record { tenant = 10; domain = "acme.io"; is_primary = true }
      ∷ record { tenant = 20; domain = "globex.io"; is_primary = true }
      ∷ [];
}

abbrev deactivated_db : Db
deactivated_db = record hosted_db { tenants = record acme { is_active = false } ∷ globex ∷ [] }

abbrev empty_store : ℕ → String → Option Cached
empty_store later key = none

acme_hosted : lookup "acme.io" hosted_db ≡ some acme
unfolding lookup select
acme_hosted = refl

change_seen_example :
    (resolve_host 400 "acme.io" deactivated_db (
      resolve_all
        ((150, "acme.io") ∷ [])
        deactivated_db
        (resolve_all ((50, "acme.io") ∷ []) hosted_db empty_store))).0
    ≡ lookup "acme.io" deactivated_db
change_seen_example =
    change_seen 100 400 hosted_db deactivated_db ((50, "acme.io") ∷ []) ((150, "acme.io") ∷ [])
      "acme.io" empty_store (λ later host le. refl) (omega arith, tt) (omega arith)

abbrev start : Server
start = record { db = hosted_db; store = empty_store; tenant_id = none }

-- A program that answers with the tenant it sees, and forgets to clear it.
abbrev echo : Request → Server → Option Tenant × Server
echo request s = (request.tenant, s)

api_path : starts_with_any "/api/v1/roles/" exempt_prefixes ≡ false
unfolding starts_with_any starts_with
api_path = refl

middleware_serves_example :
    let (r, s') =
      middleware echo 50 "/api/v1/roles/" "acme.io:8000" (request_of alice globex) start in
    (r ≡ response (some acme)) × (s'.tenant_id ≡ none)
unfolding lookup select before
middleware_serves_example =
    middleware_serves echo 50 "/api/v1/roles/" "acme.io:8000" (request_of alice globex) start 0
      (λ later host le. inl refl) (omega arith) api_path refl

create_tenant_exact_example :
    (Creatable 40 "Initech" " Ini Tech" "ini.io" true hosted_db
      × (create_tenant 40 "Initech" " Ini Tech" "ini.io" true hosted_db ≡ (
        ok (new_tenant 40 "Initech" "ini-tech", new_domain 40 "ini.io" true),
        record hosted_db {
          tenants = new_tenant 40 "Initech" "ini-tech" ∷ hosted_db.tenants;
          domains = new_domain 40 "ini.io" true ∷ hosted_db.domains;
        },
      )))
    ⊎ ((¬ Creatable 40 "Initech" " Ini Tech" "ini.io" true hosted_db)
        × (e : Error) × (create_tenant 40 "Initech" " Ini Tech" "ini.io" true hosted_db
            ≡ (err e, hosted_db)))
unfolding normalized strip lower replace_char
create_tenant_exact_example = create_tenant_exact 40 "Initech" " Ini Tech" "ini.io" true hosted_db

ini_creatable : Creatable 40 "Initech" " Ini Tech" "ini.io" true hosted_db
unfolding normalized strip lower replace_char matches_slug select
ini_creatable = (refl, refl, refl, refl, refl, refl)

no_such_key : memory.filter (with_pk 40) hosted_db.tenants ≡ []
unfolding select
no_such_key = refl

no_such_owner : memory.filter (of_tenant_key 40) hosted_db.domains ≡ []
unfolding select
no_such_owner = refl

uniquely_named : IsUniquelyNamed (record hosted_db { tenants = []; domains = [] })
unfolding select
uniquely_named = ((λ s. omega arith), (λ host. omega arith))
