-- ===== src/Features/Resolution.antt =====
-- The list of all flags of a tenant, against the resolution of a single one.
use django_saas_kit.Base.{arith}
use django_saas_kit.Http.{Request}
use django_saas_kit.Orm.Queries.{exists, filter-and, count}
use django_saas_kit.Models.{Tenant, TenantFeatureFlag, Db}
use django_saas_kit.Orm.{Orm}
use django_saas_kit.Features.Service.{
  get_waffle_flag, get_default, override_of, of_tenant_flags, at_flag, is_enabled, Waffle,
  for_tenant, apply_waffle, apply_overrides,
}
use django_saas_kit.Base.{
  arith, Option-cases, sym, List-cases, ◌||◌, is_some, if◌then◌else◌, eq_iff, ◌∙◌, str_eq,
  Bool-cases, ◌≤◌, List, Option, Bool, select, ℕ, String, [], ◌∷◌, refl, ◌≡◌, none, some, inl, inr,
}
use django_saas_kit.Features.Dict.{get, put, get-put}

named : String → TenantFeatureFlag → Bool
named name f = str_eq f.flag_name name

get-apply_waffle :
    (waffle : Waffle) (request : Option Request) (d : List (String × Bool)) (name : String)
    → get name (apply_waffle waffle request d) ≡ elim (get name d) [
      | none ↦ none
      | some b ↦ some (elim (get_waffle_flag waffle name request) [ none ↦ b | some s ↦ s ])
    ]
unfolding get apply_waffle
get-apply_waffle waffle request [] name = refl
get-apply_waffle waffle request ((k, b) ∷ d) name = elim (Bool-cases (str_eq k name)) [
  | inl same ↦ let p : k ≡ name = (eq_iff k name).0 same in rw (same, p)
  | inr other ↦ rw other (get-apply_waffle waffle request d name)
]

-- The rows of other flags leave the entry of a flag as it is.
get-apply_overrides_none :
    (l : List TenantFeatureFlag) (d : List (String × Bool)) (name : String)
    → select (named name) l ≡ []
    → get name (apply_overrides l d) ≡ get name d
unfolding apply_overrides select named
get-apply_overrides_none [] d name h = refl
get-apply_overrides_none (f ∷ l) d name h = elim (Bool-cases (str_eq f.flag_name name)) [
  | inl same ↦ absurd (let k = rw same at h in cc k)
  | inr other ↦
      let k = rw other at h in
      get-apply_overrides_none l (put f.flag_name f.is_enabled d) name k ∙ rw (get-put, other) refl
]

get-apply_overrides_one :
    (l : List TenantFeatureFlag) (d : List (String × Bool)) (name : String)
    (row : TenantFeatureFlag)
    → select (named name) l ≡ row ∷ []
    → get name (apply_overrides l d) ≡ some row.is_enabled
unfolding apply_overrides select named
get-apply_overrides_one [] d name row h = absurd (cc h)
get-apply_overrides_one (f ∷ l) d name row h = elim (Bool-cases (str_eq f.flag_name name)) [
  | inr other ↦
      let k = rw other at h in get-apply_overrides_one l (put f.flag_name f.is_enabled d) name row k
  | inl same ↦
      let k = rw same at h in
      let rest : select (named name) l ≡ [] = cc k in
      let is_row : f ≡ row = cc k in
      get-apply_overrides_none l (put f.flag_name f.is_enabled d) name rest
      ∙ rw (get-put, same, is_row) refl
]

module _ ⦃orm : Orm⦄ where
  -- The rows of one flag (`unique_together`).
  abbrev pub HasUniqueFlags : Db → Type 0
  HasUniqueFlags db = (tenant : ℕ) (name : String) → count (at_flag tenant name) db.flags ≤ 1

  flag_rows :
      (tenant : ℕ) (name : String) (db : Db)
      → orm.filter (at_flag tenant name) db.flags
        ≡ select (named name) (orm.filter (of_tenant_flags tenant) db.flags)
  unfolding named
  flag_rows tenant name db =
      filter-and (of_tenant_flags tenant) (λ f. str_eq f.flag_name name) db.flags

  -- Where a flag has at most one row, the list of a tenant's flags has an entry exactly for the flags
  -- of the settings and of the tenant's rows, and each entry is what the flag alone resolves to.
  pub get-for_tenant :
      (waffle : Waffle) (defaults : List (String × Bool)) (tenant : Tenant)
      (request : Option Request) (name : String) (db : Db)
      → HasUniqueFlags db
      → get name (for_tenant waffle defaults tenant request db) ≡ (
          if is_some (get name defaults) || exists (at_flag tenant.pk name) db.flags
          then some (is_enabled waffle defaults name request (some tenant) db)
          else none)
  unfolding for_tenant is_enabled override_of get_default
  get-for_tenant waffle defaults tenant request name db unique =
      let rows = flag_rows tenant.pk name db in
      elim (List-cases (orm.filter (at_flag tenant.pk name) db.flags)) [
        | inl e ↦
            rw
              (
                get-apply_overrides_none (orm.filter (of_tenant_flags tenant.pk) db.flags)
                    (apply_waffle waffle request defaults) name (sym rows ∙ e),
                get-apply_waffle,
                e,
                override_of,
              )
              (elim (Option-cases (get name defaults)) [
                | inl missing ↦ rw missing
                | inr (b, listed) ↦ elim (Option-cases (get_waffle_flag waffle name request)) [
                  | inl silent ↦
                      rw (listed, is_enabled, e, silent, override_of, get_default, listed)
                  | inr (s, says) ↦ rw (listed, is_enabled, e, says, override_of)
                ]
              ])
        | inr (inl (row, e)) ↦
            rw
              (
                get-apply_overrides_one (orm.filter (of_tenant_flags tenant.pk) db.flags)
                    (apply_waffle waffle request defaults) name row (sym rows ∙ e),
                e,
                is_enabled,
                override_of,
              )
              (ground arith)
        | inr (inr (x, y, l, e)) ↦ absurd (let k = rw e at (unique tenant.pk name) in omega arith)
      ]
