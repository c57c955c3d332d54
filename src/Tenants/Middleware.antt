-- ===== src/Tenants/Middleware.antt =====
-- `TenantMiddleware`: the tenant of a request's host, read through the cache.
use django_saas_kit.Rbac.Permissions.{with_pk}
use django_saas_kit.Orm.Queries.{first}
use django_saas_kit.Http.{Request}
use django_saas_kit.Cache.{Cache}
use django_saas_kit.Orm.{Orm}
use django_saas_kit.Models.{Domain, Db, Tenant}
use django_saas_kit.Base.{
  not, ◌||◌, if◌then◌else◌, str_eq, false, Option, Bool, ℕ, String, List, [], ◌∷◌, none, some,
}
use django_saas_kit.Text.{before, append, starts_with}

-- `_EXEMPT_PREFIXES`
abbrev pub exempt_prefixes : List String
exempt_prefixes =
    "/admin/" ∷ "/health/" ∷ "/ready/" ∷ "/api/schema/" ∷ "/api/docs/" ∷ "/api/redoc/" ∷ "/static/"
    ∷ []

-- `any(path.startswith(p) for p in prefixes)`
unfoldable pub starts_with_any : String → List String → Bool
starts_with_any path [] = false
starts_with_any path (p ∷ l) = starts_with p path || starts_with_any path l

-- `_TENANT_CACHE_TTL` and `_NEGATIVE_CACHE_TTL`, in seconds
abbrev pub tenant_cache_ttl : ℕ
tenant_cache_ttl = 300

abbrev pub negative_cache_ttl : ℕ
negative_cache_ttl = 60

-- `_cache_key`
unfoldable pub cache_key : String → String
unfolding append
cache_key host = append "tenant:domain:" host

-- What is cached: a tenant, or the sentinel `_TenantNotFound`.
pub data Cached : Type 0 where
  found : Tenant → Cached
  tenant_not_found : Cached

-- The response of the middleware, `response` being that of the rest of the program.
pub data Served (A : Type 0) : Type 0 where
  not_found_404 inactive_403 : Served A
  response : A → Served A

abbrev pub with_domain : String → Domain → Bool
with_domain host d = str_eq d.domain host

module _ ⦃orm : Orm⦄ where
  -- `Domain.objects.select_related("tenant").get(domain=host)`; a domain is unique
  unfoldable pub lookup : String → Db → Option Tenant
  lookup host db = elim (first (with_domain host) db.domains) [
    | none ↦ none
    | some d ↦ first (with_pk d.tenant) db.tenants
  ]

  module _ ⦃cache : Cache Cached⦄ where
    -- the answer of the database is kept in the cache
    unfoldable pub fill : ℕ → String → cache.Store → Option Tenant → Option Tenant × cache.Store
    fill now host c (some tenant) =
        (some tenant, cache.set now (cache_key host) (found tenant) tenant_cache_ttl c)
    fill now host c none =
        (none, cache.set now (cache_key host) tenant_not_found negative_cache_ttl c)

    unfoldable pub from_cache :
        ℕ → String → Db → cache.Store → Option Cached → Option Tenant × cache.Store
    unfolding fill
    from_cache now host db c (some tenant_not_found) = (none, c)
    from_cache now host db c (some (found tenant)) = (some tenant, c)
    from_cache now host db c none = fill now host c (lookup host db)

    -- `TenantMiddleware._resolve_tenant`
    unfoldable pub resolve_host : ℕ → String → Db → cache.Store → Option Tenant × cache.Store
    unfolding from_cache
    resolve_host now host db c = from_cache now host db c (cache.get now (cache_key host) c)

    -- `TenantMiddleware.invalidate_cache`
    unfoldable pub invalidate_cache : String → cache.Store → cache.Store
    invalidate_cache host c = cache.delete (cache_key host) c

    -- The database, the cache, and the context variable of services/tenant_context.py.
    pub record Server : Type 0 where
      pub db : Db
      pub store : cache.Store
      pub tenant_id : Option ℕ

    module _ {A : Type 0} (get_response : Request → Server → A × Server) where
      abbrev passed : A × Server → Served A × Server
      passed (a, s) = (response a, s)

      -- ... with `clear_tenant()` after the response
      abbrev cleared : A × Server → Served A × Server
      cleared (a, s) = (response a, record s { tenant_id = none })

      abbrev serve : Request → Server → Option Tenant → Served A × Server
      serve request s none = (not_found_404, s)
      serve request s (some tenant) =
          if not tenant.is_active
          then (inactive_403, s)
          else cleared (
              get_response (record request { tenant = some tenant })
                (record s { tenant_id = some tenant.pk }))

      -- `TenantMiddleware.__call__`
      unfoldable pub middleware : ℕ → (path host : String) → Request → Server → Served A × Server
      middleware now path host request s =
          if starts_with_any path exempt_prefixes
          then passed
              (get_response (record request { tenant = none }) (record s { tenant_id = none }))
          else (let (tenant, store) = resolve_host now (before b':' host) s.db s.store in
              serve request (record s { store = store }) tenant)
