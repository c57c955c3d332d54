-- ===== src/Tenants/Serving.antt =====
-- What the middleware passes on to the rest of the program, and what it leaves behind.
use django_saas_kit.Tenants.Middleware.{
  lookup, not_found_404, inactive_403, response, exempt_prefixes, starts_with_any, resolve_host,
  middleware, Server, Cached,
}
use django_saas_kit.Text.{before}
use django_saas_kit.Http.{Request}
use django_saas_kit.Orm.{Orm}
use django_saas_kit.Base.{
  Bool-cases, Option-cases, if◌then◌else◌, false, ◌≤◌, String, ℕ, refl, ◌≡◌, none, some, inl, inr,
}
use django_saas_kit.Cache.{Cache}
use django_saas_kit.Tenants.Freshness.{Agrees, resolve_host-eq-lookup}

module _ ⦃orm : Orm⦄ ⦃cache : Cache Cached⦄ {A : Type 0}
    (get_response : Request → Server → A × Server) (now : ℕ) (path raw_host : String)
    (request : Request) (s : Server) where
  -- Where the cache agrees with the database, a request to a path that is not exempt is answered
  -- 404 on an unknown host and 403 on that of an inactive tenant, and is else passed on as a request
  -- of the tenant that the database gives the host, whose key is then the current tenant's. However
  -- the rest of the program leaves the current tenant, it is cleared for the next request.
  pub middleware_serves :
      (from : ℕ)
      → Agrees from s.db s.store
      → from ≤ now
      → starts_with_any path exempt_prefixes ≡ false
      → s.tenant_id ≡ none
      → let (r, s') = middleware get_response now path raw_host request s in
        let store = (resolve_host now (before b':' raw_host) s.db s.store).1 in
        (r ≡ elim (lookup (before b':' raw_host) s.db) [
          | none ↦ not_found_404
          | some t ↦
              if t.is_active
              then response
                  (get_response
                    (record request { tenant = some t })
                    (record s { store = store; tenant_id = some t.pk })).0
              else inactive_403
        ])
        × (s'.tenant_id ≡ none)
  unfolding middleware
  middleware_serves from h le guarded_path clear =
      let resolved = resolve_host-eq-lookup from now (before b':' raw_host) s.db s.store h le in
      elim (Option-cases (lookup (before b':' raw_host) s.db)) [
        | inl unknown ↦ rw (guarded_path, resolved, unknown) (refl, clear)
        | inr (t, known) ↦ elim (Bool-cases t.is_active) [
          | inl active ↦ rw (guarded_path, resolved, known, active) (refl, refl)
          | inr inactive ↦ rw (guarded_path, resolved, known, inactive) (refl, clear)
        ]
      ]
