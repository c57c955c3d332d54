-- ===== src/Tenants/Creation.antt =====
-- When a tenant is created, and what its domain then resolves to.
use django_saas_kit.Action.{
  integrity_error, domain_taken, schema_taken, domain_empty, slug_invalid, slug_empty, Error,
}
use django_saas_kit.Rbac.Permissions.{with_pk}
use django_saas_kit.Tenants.Middleware.{with_domain, lookup}
use django_saas_kit.Tenants.Service.{
  with_slug, new_domain, new_tenant, matches_slug, normalize_slug, validate_slug, normalized,
  with_schema, create_tenant,
}
use django_saas_kit.Text.{strip, lower, is_blank}
use django_saas_kit.Orm.Queries.{filter_apart, first_cases, filter-create, exists, count}
use django_saas_kit.Models.{Domain, Db}
use django_saas_kit.Orm.{err, ok, Orm}
use django_saas_kit.Orm.Queries.{exists_none}
use django_saas_kit.Base.{
  eq_iff, arith, ==_refl, ◌⊎◌, Bool-cases, true, str_eq, false, if◌then◌else◌, ◌≤◌, ◌==◌, Bool,
  String, ℕ, [], refl, ◌≡◌, some, inl, inr,
}

abbrev pub of_tenant_key : ℕ → Domain → Bool
of_tenant_key pk d = d.tenant == pk

module _ ⦃orm : Orm⦄ where
  -- No two tenants have the same schema name, and no two domains the same host.
  abbrev pub IsUniquelyNamed : Db → Type 0
  IsUniquelyNamed db =
      ((s : String) → count (with_schema s) db.tenants ≤ 1)
      × ((host : String) → count (with_domain host) db.domains ≤ 1)

module _ ⦃orm : Orm⦄ (pk : ℕ) (name raw_schema_name raw_domain : String) (is_primary : Bool)
    (db : Db) where
  -- The schema name is a slug, the domain is not empty, neither is taken, and no tenant has the
  -- schema name as its slug.
  abbrev pub Creatable : Type 0
  Creatable =
      (is_blank (normalized raw_schema_name) ≡ false)
      × (matches_slug (normalized raw_schema_name) ≡ true)
      × (is_blank (lower (strip raw_domain)) ≡ false)
      × (exists (with_schema (normalized raw_schema_name)) db.tenants ≡ false)
      × (exists (with_domain (lower (strip raw_domain))) db.domains ≡ false)
      × (exists (with_slug (normalized raw_schema_name)) db.tenants ≡ false)

  -- A tenant is created exactly where it may be: then the tenant and its domain are stored
  -- together, under the normalised names. Otherwise the call raises, and nothing is written.
  pub create_tenant_exact :
      let schema_name = normalized raw_schema_name in
      let domain = lower (strip raw_domain) in
      (Creatable
        × (create_tenant pk name raw_schema_name raw_domain is_primary db ≡ (
          ok (new_tenant pk name schema_name, new_domain pk domain is_primary),
          record db {
            tenants = orm.create (new_tenant pk name schema_name) db.tenants;
            domains = orm.create (new_domain pk domain is_primary) db.domains;
          },
        )))
      ⊎ ((¬ Creatable)
          × (e : Error) × (create_tenant pk name raw_schema_name raw_domain is_primary db
              ≡ (err e, db)))
  unfolding create_tenant validate_slug normalize_slug
  create_tenant_exact = elim (Bool-cases (is_blank (normalized raw_schema_name))) [
    | inl blank ↦ inr ((λ h. cc (blank, h.0)), slug_empty, rw blank)
    | inr named ↦ elim (Bool-cases (matches_slug (normalized raw_schema_name))) [
      | inr bad ↦ inr ((λ h. cc (bad, h.1)), slug_invalid, rw (named, bad))
      | inl good ↦ elim (Bool-cases (is_blank (lower (strip raw_domain)))) [
        | inl no_host ↦ inr ((λ h. cc (no_host, h.2)), domain_empty, rw (named, good, no_host))
        | inr host ↦
            elim (Bool-cases (exists (with_schema (normalized raw_schema_name)) db.tenants)) [
              | inl used ↦ inr ((λ h. cc (used, h.3)), schema_taken, rw (named, good, host, used))
              | inr free ↦
                  elim (Bool-cases (exists (with_domain (lower (strip raw_domain))) db.domains)) [
                    | inl taken ↦
                        inr (
                          (λ h. cc (taken, h.4)),
                          domain_taken,
                          rw (named, good, host, free, taken),
                        )
                    | inr open_host ↦
                        elim (Bool-cases
                          (exists (with_slug (normalized raw_schema_name)) db.tenants)) [
                            | inl repeated ↦ inr (
                              (λ h. cc (repeated, h.5)),
                              integrity_error,
                              rw (named, good, host, free, open_host, orm.atomic_lem, repeated),
                            )
                            | inr unused ↦ inl (
                              (named, good, host, free, open_host, unused),
                              rw (named, good, host, free, open_host, orm.atomic_lem, unused) refl,
                            )
                          ]
                  ]
            ]
      ]
    ]
  ]

  -- No call, whatever it is given, makes a second tenant with a schema name or a second domain.
  create_tenant-IsUniquelyNamed :
      IsUniquelyNamed db
      → IsUniquelyNamed (create_tenant pk name raw_schema_name raw_domain is_primary db).1
  create_tenant-IsUniquelyNamed h = elim create_tenant_exact [
    | inr (refused, e, raised) ↦ rw raised h
    | inl ((named, good, host, free, open_host, unused), created) ↦ rw created (
      (λ s. rw filter-create (elim (Bool-cases (str_eq (normalized raw_schema_name) s)) [
        | inr other ↦ rw other (h.0 s)
        | inl same ↦
            let p : normalized raw_schema_name ≡ s =
              (eq_iff (normalized raw_schema_name) s).0 same in
            rw (same, ← p, exists_none (with_schema (normalized raw_schema_name)) db.tenants free)
              (omega arith)
      ])),
      (λ s. rw filter-create (elim (Bool-cases (str_eq (lower (strip raw_domain)) s)) [
        | inr other ↦ rw other (h.1 s)
        | inl same ↦
            let p : lower (strip raw_domain) ≡ s = (eq_iff (lower (strip raw_domain)) s).0 same in
            rw
              (same, ← p, exists_none (with_domain (lower (strip raw_domain))) db.domains open_host)
              (omega arith)
      ])),
    )
  ]

  -- A tenant that was created, with a key that no tenant and no domain had, is what its domain
  -- resolves to; every other host resolves as before.
  pub create_tenant-lookup :
      Creatable
      → orm.filter (with_pk pk) db.tenants ≡ []
      → orm.filter (of_tenant_key pk) db.domains ≡ []
      → (host : String)
      → lookup host (create_tenant pk name raw_schema_name raw_domain is_primary db).1 ≡ (
          if str_eq (lower (strip raw_domain)) host
          then some (new_tenant pk name (normalized raw_schema_name))
          else lookup host db)
  unfolding lookup
  create_tenant-lookup creatable fresh unused host = elim create_tenant_exact [
    | inr (refused, e, raised) ↦ absurd (refused creatable)
    | inl (c, created) ↦ elim (Bool-cases (str_eq (lower (strip raw_domain)) host)) [
      | inl same ↦ rw (created, filter-create, same, lookup, created, filter-create, ==_refl pk)
      | inr other ↦ elim (first_cases (with_domain host) db.domains) [
        | inl unknown ↦ rw (created, filter-create, other, lookup, unknown)
        | inr (d, l, known, rows) ↦
            let apart : of_tenant_key pk d ≡ false =
              filter_apart (of_tenant_key pk) (with_domain host) db.domains l d unused rows in
            let not_new : (pk == d.tenant) ≡ false = ground arith in
            rw (created, filter-create, other, lookup, known, created, filter-create, not_new)
      ]
    ]
  ]
