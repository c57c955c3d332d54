-- ===== src/Tenants/Service.antt =====
-- services/tenants/tenant_service.py. The key of a new row is an argument.
use django_saas_kit.Tenants.Middleware.{with_domain}
use django_saas_kit.Orm.Queries.{exists}
use django_saas_kit.Text.{is_blank, strip, lower, replace_char}
use django_saas_kit.Models.{Domain, Tenant}
use django_saas_kit.Action.{
  integrity_error, modify, domain_taken, schema_taken, gets, pure, slug_empty, domain_empty,
  slug_invalid, raise_if, ◌>>◌, ◌>>=◌, Action,
}
use django_saas_kit.Orm.{Orm}
use Prim.Native.Char.{code}
use Prim.Native.String.{String, [] as nil, ◌∷◌ as cons, char_at}
use django_saas_kit.Base.{not, ◌||◌, ◌==◌, ◌&&◌, str_eq, if◌then◌else◌, true, false, leb, Bool, ℕ}

-- `[a-z0-9]`
abbrev is_slug_char : ℕ → Bool
is_slug_char c = (leb 97 c && leb c 122) || (leb 48 c && leb c 57)

-- `_SLUG_PATTERN`, from inside a word on: `after_char` says whether the last character was of
-- `[a-z0-9]`, so that the text may end or a hyphen may follow.
unfoldable pub slug_from : (after_char : Bool) → String → Bool
slug_from after_char nil = after_char
slug_from after_char (cons c s) =
    let word = slug_from true s in
    let next = slug_from false s in
    if is_slug_char (code c) then word else (code c == 45 && after_char && next)

unfoldable pub matches_slug : String → Bool
unfolding slug_from
matches_slug s = slug_from false s

unfoldable pub normalized : String → String
normalized slug = replace_char b' ' (char_at "-" 0) (lower (strip slug))

-- The rows of a new tenant.
abbrev pub new_tenant : ℕ → (name schema_name : String) → Tenant
new_tenant pk name schema_name = record {
  pk = pk;
  name = strip name;
  slug = schema_name;
  schema_name = schema_name;
  is_active = true;
}

abbrev pub new_domain : ℕ → (domain : String) → (is_primary : Bool) → Domain
new_domain pk domain is_primary = record { tenant = pk; domain = domain; is_primary = is_primary }

abbrev pub with_slug : String → Tenant → Bool
with_slug slug t = str_eq t.slug slug

abbrev pub with_schema : String → Tenant → Bool
with_schema schema_name t = str_eq t.schema_name schema_name

module _ ⦃orm : Orm⦄ where
  -- `TenantService.normalize_slug`
  unfoldable pub normalize_slug : String → Action String
  normalize_slug slug = do raise_if (is_blank (normalized slug)) slug_empty; pure (normalized slug)

  -- `TenantService.validate_slug`
  unfoldable pub validate_slug : String → Action String
  unfolding normalize_slug
  validate_slug slug = do
    slug ← normalize_slug slug
    raise_if (not (matches_slug slug)) slug_invalid
    pure slug

  -- `TenantService.create_tenant`; the column of the slug is unique too, and the database refuses a
  -- row that repeats one
  unfoldable pub create_tenant :
      ℕ → (name schema_name domain : String) → (is_primary : Bool) → Action (Tenant × Domain)
  unfolding validate_slug normalize_slug
  create_tenant pk name raw_schema_name raw_domain is_primary = do
    schema_name ← validate_slug raw_schema_name
    let domain = lower (strip raw_domain)
    raise_if (is_blank domain) domain_empty
    schema_used ← gets (λ db. exists (with_schema schema_name) db.tenants)
    raise_if schema_used schema_taken
    domain_used ← gets (λ db. exists (with_domain domain) db.domains)
    raise_if domain_used domain_taken
    orm.atomic (do
      slug_used ← gets (λ db. exists (with_slug schema_name) db.tenants)
      raise_if slug_used integrity_error
      modify (λ db. record db { tenants = orm.create (new_tenant pk name schema_name) db.tenants })
      modify (λ db. record db { domains = orm.create (new_domain pk domain is_primary) db.domains })
      pure (new_tenant pk name schema_name, new_domain pk domain is_primary))
