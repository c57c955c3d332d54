-- ===== src/Demo/Tenants.antt =====
-- The tenants and domains that `_ensure_tenants` leaves.
use django_saas_kit.Base.{inr, ap, inl, [], ◌≡◌, refl, ◌≤◌, length, arith, ◌∙◌}
use django_saas_kit.Orm.{Orm, ok}
use django_saas_kit.Orm.Queries.{filter_pass}
use django_saas_kit.Models.{Db, Tenant, Domain}
use django_saas_kit.Rbac.Permissions.{with_pk}
use django_saas_kit.Demo.{
  ensure_domain, DemoTenantSpec, spec_tenant, assign_spec, spec_host, spec_domain, set_primary,
  at_tenant_host, takes_slug, takes_host, ensure_tenant,
}
use django_saas_kit.Demo.Upserts.{Upserted, upsert_cases}

module _ ⦃orm : Orm⦄ where
  -- The columns that are unique let the seed write the tenant and its domain.
  pub record Seedable (spec : DemoTenantSpec) (tenants : orm.Table Tenant)
      (domains : orm.Table Domain) : Type 0 where
    pub slug_free : orm.filter (takes_slug spec) tenants ≡ []
    pub one_tenant : length (orm.filter (with_pk spec.id) tenants) ≤ 1
    pub host_free : orm.filter (takes_host spec.id (spec_host spec)) domains ≡ []
    pub one_domain : length (orm.filter (at_tenant_host spec.id (spec_host spec)) domains) ≤ 1

  abbrev pub StoredTenant : DemoTenantSpec → orm.Table Tenant → Tenant → orm.Table Tenant → Type 0
  StoredTenant spec = Upserted (with_pk spec.id) (spec_tenant spec) (assign_spec spec)

  abbrev pub StoredDomain :
      DemoTenantSpec → Tenant → orm.Table Domain → Domain → orm.Table Domain → Type 0
  StoredDomain spec tenant =
      Upserted (at_tenant_host tenant.pk (spec_host spec)) (spec_domain tenant spec) set_primary

  stored_pk :
      (spec : DemoTenantSpec) (t t' : orm.Table Tenant) (tenant : Tenant)
      → StoredTenant spec t tenant t'
      → tenant.pk ≡ spec.id
  stored_pk spec t t' tenant (inl (new, same, after)) = ap (λ r. r.pk) same
  stored_pk spec t t' tenant (inr (found, one, same, after)) =
      let named = filter_pass (with_pk spec.id) t [] found one in ap (λ r. r.pk) same ∙ ground arith

  ensure_domain_lem :
      (spec : DemoTenantSpec) (tenant : Tenant) (db : Db)
      → orm.filter (takes_host tenant.pk (spec_host spec)) db.domains ≡ []
      → length (orm.filter (at_tenant_host tenant.pk (spec_host spec)) db.domains) ≤ 1
      → (domain : Domain) × (domains : orm.Table Domain) × (ensure_domain spec tenant db
          ≡ (ok tenant, record db { domains = domains }))
        × StoredDomain spec tenant db.domains domain domains
  unfolding ensure_domain
  ensure_domain_lem spec tenant db free few =
      let (domain, domains, stored, upserted) =
        upsert_cases (at_tenant_host tenant.pk (spec_host spec)) (spec_domain tenant spec)
          set_primary db.domains few in
      (domain, domains, rw (free, stored) refl, upserted)

  pub ensure_tenant_lem :
      (spec : DemoTenantSpec) (db : Db)
      → Seedable spec db.tenants db.domains
      → (tenant : Tenant) × (tenants : orm.Table Tenant) × (domain : Domain) × (domains : orm.Table
          Domain)
        × (ensure_tenant spec db ≡ (ok tenant, record db { tenants = tenants; domains = domains }))
        × (tenant.pk ≡ spec.id)
        × StoredTenant spec db.tenants tenant tenants
        × StoredDomain spec tenant db.domains domain domains
  unfolding ensure_tenant
  ensure_tenant_lem spec db free =
      let (tenant, tenants, stored, upserted) =
        upsert_cases (with_pk spec.id) (spec_tenant spec) (assign_spec spec) db.tenants
          free.one_tenant in
      let same = stored_pk spec db.tenants tenants tenant upserted in
      let (domain, domains, kept, upserted') =
        ensure_domain_lem spec tenant (record db { tenants = tenants }) (rw same free.host_free)
          (rw same free.one_domain) in
      (
        tenant,
        tenants,
        domain,
        domains,
        rw (free.slug_free, stored) kept,
        same,
        upserted,
        upserted',
      )
