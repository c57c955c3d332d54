-- ===== src/Demo/Serving.antt =====
-- The demo tenants are found by their keys and by their hosts.
use django_saas_kit.Base.{
  ==_refl, eq_iff, ℕ, String, true, false, List, [], ◌∷◌, ◌≡◌, refl, ◌==◌, arith, str_eq,
  str_eq_sym, select, sym, ◌∙◌, some,
}
use django_saas_kit.Orm.{Orm}
use django_saas_kit.Orm.Queries.{filter_pass}
use django_saas_kit.Models.{Db, Tenant, Domain}
use django_saas_kit.Rbac.Permissions.{with_pk}
use django_saas_kit.Tenants.Middleware.{with_domain, lookup}
use django_saas_kit.Demo.{
  DemoTenantSpec, spec_tenant, assign_spec, spec_host, spec_domain, set_primary, at_tenant_host,
  takes_slug, takes_host,
}
use django_saas_kit.Demo.Upserts.{Upserted-found, Upserted-none, Upserted-other}
use django_saas_kit.Demo.Tenants.{Seedable, StoredTenant, StoredDomain}

-- Two entries of the configuration share nothing.
pub record Apart (spec other : DemoTenantSpec) : Type 0 where
  pub ids : (spec.id == other.id) ≡ false
  pub slugs : str_eq spec.slug other.slug ≡ false
  pub hosts : str_eq (spec_host spec) (spec_host other) ≡ false

-- Where no other tenant has the host, its rows are those of the tenant.
select_host :
    (tenant : ℕ) (host : String) (l : List Domain)
    → select (takes_host tenant host) l ≡ []
    → select (with_domain host) l ≡ select (at_tenant_host tenant host) l
unfolding select
select_host tenant host [] e = refl
select_host tenant host (d ∷ l) e = ground (arith, select_host tenant host l)

other_host :
    (a b : String) (d : Domain)
    → str_eq a b ≡ false
    → with_domain a d ≡ true
    → str_eq d.domain b ≡ false
other_host a b d apart e = let same : d.domain ≡ a = (eq_iff d.domain a).0 e in rw same apart

module _ ⦃orm : Orm⦄ where
  pub record Serves (spec : DemoTenantSpec) (tenant : Tenant) (tenants : orm.Table Tenant)
      (domains : orm.Table Domain) : Type 0 where
    pub one_row : orm.filter (with_pk spec.id) tenants ≡ tenant ∷ []
    pub host_row : Domain
    pub one_host : orm.filter (with_domain (spec_host spec)) domains ≡ host_row ∷ []
    pub of_tenant : host_row.tenant ≡ spec.id

  pub Serves-own :
      (spec : DemoTenantSpec) (tenant : Tenant) (t t' : orm.Table Tenant) (domain : Domain)
      (d d' : orm.Table Domain)
      → Seedable spec t d
      → tenant.pk ≡ spec.id
      → StoredTenant spec t tenant t'
      → StoredDomain spec tenant d domain d'
      → Serves spec tenant t' d'
  Serves-own spec tenant t t' domain d d' free same stored stored' =
      let own : orm.filter (at_tenant_host tenant.pk (spec_host spec)) d' ≡ domain ∷ [] =
        Upserted-found (at_tenant_host tenant.pk (spec_host spec)) (spec_domain tenant spec)
          set_primary d d' domain
          (rw (==_refl tenant.pk) ((eq_iff (spec_host spec) (spec_host spec)).1 refl)) (λ r. refl)
          stored' in
      let free' : orm.filter (takes_host tenant.pk (spec_host spec)) d' ≡ [] =
        Upserted-none (at_tenant_host tenant.pk (spec_host spec)) (spec_domain tenant spec)
          set_primary (takes_host tenant.pk (spec_host spec)) d d' domain
          (rw (==_refl tenant.pk) refl) (λ r h. ground arith) (rw same free.host_free) stored' in
      let passes = filter_pass (at_tenant_host tenant.pk (spec_host spec)) d' [] domain own in
      let at : domain.tenant ≡ tenant.pk = ground arith in
      record {
        one_row =
            Upserted-found (with_pk spec.id) (spec_tenant spec) (assign_spec spec) t t' tenant
              (==_refl spec.id) (λ r. refl) stored;
        host_row = domain;
        one_host =
            orm.filter_lem (with_domain (spec_host spec)) d'
            ∙ select_host tenant.pk (spec_host spec) (orm.all d')
                (sym (orm.filter_lem (takes_host tenant.pk (spec_host spec)) d') ∙ free')
            ∙ sym (orm.filter_lem (at_tenant_host tenant.pk (spec_host spec)) d')
            ∙ own;
        of_tenant = at ∙ same;
      }

  -- A tenant that was stored can be stored again.
  pub seedable_own :
      (spec : DemoTenantSpec) (tenant : Tenant) (t t' : orm.Table Tenant) (domain : Domain)
      (d d' : orm.Table Domain)
      → Seedable spec t d
      → tenant.pk ≡ spec.id
      → StoredTenant spec t tenant t'
      → StoredDomain spec tenant d domain d'
      → Seedable spec t' d'
  seedable_own spec tenant t t' domain d d' free same stored stored' =
      let row : orm.filter (with_pk spec.id) t' ≡ tenant ∷ [] =
        Upserted-found (with_pk spec.id) (spec_tenant spec) (assign_spec spec) t t' tenant
          (==_refl spec.id) (λ r. refl) stored in
      let own : orm.filter (at_tenant_host tenant.pk (spec_host spec)) d' ≡ domain ∷ [] =
        Upserted-found (at_tenant_host tenant.pk (spec_host spec)) (spec_domain tenant spec)
          set_primary d d' domain
          (rw (==_refl tenant.pk) ((eq_iff (spec_host spec) (spec_host spec)).1 refl)) (λ r. refl)
          stored' in
      let own_id : orm.filter (at_tenant_host spec.id (spec_host spec)) d' ≡ domain ∷ [] =
        rw same at own in
      record {
        slug_free =
            Upserted-none (with_pk spec.id) (spec_tenant spec) (assign_spec spec) (takes_slug spec)
              t t' tenant (rw (==_refl spec.id) refl) (λ r h. ground arith) free.slug_free stored;
        one_tenant = rw row (omega arith);
        host_free =
            Upserted-none (at_tenant_host tenant.pk (spec_host spec)) (spec_domain tenant spec)
              set_primary (takes_host spec.id (spec_host spec)) d d' domain
              (rw (same, ==_refl spec.id) refl) (λ r h. ground arith) free.host_free stored';
        one_domain = rw own_id (omega arith);
      }

  -- Storing another entry leaves a tenant served.
  pub Serves-other :
      (spec other : DemoTenantSpec) (tenant tenant' : Tenant) (t t' : orm.Table Tenant)
      (domain : Domain) (d d' : orm.Table Domain)
      → Apart spec other
      → Serves spec tenant t d
      → tenant'.pk ≡ other.id
      → StoredTenant other t tenant' t'
      → StoredDomain other tenant' d domain d'
      → Serves spec tenant t' d'
  Serves-other spec other tenant tenant' t t' domain d d' apart serves same stored stored' =
      record {
        one_row =
            Upserted-other (with_pk other.id) (spec_tenant other) (assign_spec other)
              (with_pk spec.id) t t' tenant' (let h = apart.ids in ground arith) (λ r. refl)
              (λ r h. let k = apart.ids in ground arith) stored
            ∙ serves.one_row;
        host_row = serves.host_row;
        one_host =
            Upserted-other (at_tenant_host tenant'.pk (spec_host other)) (spec_domain tenant' other)
              set_primary (with_domain (spec_host spec)) d d' domain
              (str_eq_sym (spec_host spec) (spec_host other) apart.hosts) (λ r. refl)
              (λ r h.
                let k = other_host (spec_host spec) (spec_host other) r apart.hosts h in
                ground arith)
              stored'
            ∙ serves.one_host;
        of_tenant = serves.of_tenant;
      }

  -- ... and another tenant can still be stored.
  pub seedable_other :
      (spec other : DemoTenantSpec) (tenant : Tenant) (t t' : orm.Table Tenant) (domain : Domain)
      (d d' : orm.Table Domain)
      → Apart spec other
      → Seedable other t d
      → tenant.pk ≡ spec.id
      → StoredTenant spec t tenant t'
      → StoredDomain spec tenant d domain d'
      → Seedable other t' d'
  seedable_other spec other tenant t t' domain d d' apart free same stored stored' = record {
    slug_free =
        Upserted-none (with_pk spec.id) (spec_tenant spec) (assign_spec spec) (takes_slug other) t
          t' tenant (rw apart.slugs (ground arith)) (λ r h. let k = apart.slugs in ground arith)
          free.slug_free stored;
    one_tenant =
        rw
          (Upserted-other (with_pk spec.id) (spec_tenant spec) (assign_spec spec) (with_pk other.id)
            t t' tenant apart.ids (λ r. refl) (λ r h. let k = apart.ids in ground arith) stored)
          free.one_tenant;
    host_free =
        Upserted-none (at_tenant_host tenant.pk (spec_host spec)) (spec_domain tenant spec)
          set_primary (takes_host other.id (spec_host other)) d d' domain
          (rw apart.hosts (ground arith)) (λ r h. ground arith) free.host_free stored';
    one_domain =
        rw
          (Upserted-other (at_tenant_host tenant.pk (spec_host spec)) (spec_domain tenant spec)
            set_primary (at_tenant_host other.id (spec_host other)) d d' domain
            (rw apart.hosts (ground arith)) (λ r. refl) (λ r h. let k = apart.ids in ground arith)
            stored')
          free.one_domain;
  }

  pub Serves-lookup :
      (spec : DemoTenantSpec) (tenant : Tenant) (db : Db)
      → Serves spec tenant db.tenants db.domains
      → lookup (spec_host spec) db ≡ some tenant
  unfolding lookup
  Serves-lookup spec tenant db serves =
      rw (lookup, serves.one_host, serves.of_tenant, serves.one_row) refl
