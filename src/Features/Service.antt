-- ===== src/Features/Service.antt =====
-- services/features/feature_service.py. django-waffle and the settings are arguments.
use django_saas_kit.Http.{Request}
use django_saas_kit.Action.{
  multiple_objects_returned, ◌>>◌, raise, gets, modify, pure, ◌>>=◌, Action,
}
use django_saas_kit.Orm.{ok, Orm}
use django_saas_kit.Models.{Db, TenantFeatureFlag, Tenant}
use django_saas_kit.Base.{
  str_eq, not, is_empty, ◌&&◌, ◌==◌, if◌then◌else◌, false, ℕ, Bool, String, Option, List, [], ◌∷◌,
  none, some,
}
use django_saas_kit.Features.Dict.{get, put}
use django_saas_kit.Text.{append}
use django_saas_kit.Billing.Plans.{subscription_of, plan_of}

-- What the program uses of waffle, `none` standing for an exception.
pub record Waffle : Type 0 where
  pub installed : Bool
  pub flag_is_active : Request → String → Option Bool
  pub switch_is_active : String → Option Bool

-- `_get_waffle_flag`
unfoldable pub get_waffle_flag : Waffle → String → Option Request → Option Bool
get_waffle_flag waffle name request = if not waffle.installed then none else elim request [
  | none ↦ waffle.switch_is_active name
  | some r ↦ elim (waffle.flag_is_active r name) [
    | some state ↦ some state
    | none ↦ waffle.switch_is_active name
  ]
]

-- `_get_default`, on the setting FEATURE_FLAGS_DEFAULTS
unfoldable pub get_default : List (String × Bool) → String → Bool
get_default defaults name = elim (get name defaults) [ none ↦ false | some b ↦ b ]

-- The lookups on `TenantFeatureFlag`.
abbrev pub of_tenant_flags : ℕ → TenantFeatureFlag → Bool
of_tenant_flags tenant f = f.tenant == tenant

abbrev pub at_flag : ℕ → String → TenantFeatureFlag → Bool
at_flag tenant name f = f.tenant == tenant && str_eq f.flag_name name

-- The row that `update_or_create` creates, and the `defaults` that it assigns.
abbrev pub new_flag : Tenant → String → Bool → String → String → TenantFeatureFlag
new_flag tenant name is_enabled source note = record {
  tenant = tenant.pk;
  flag_name = name;
  is_enabled = is_enabled;
  source = source;
  note = note;
}

abbrev pub set_flag : Bool → String → String → TenantFeatureFlag → TenantFeatureFlag
set_flag is_enabled source note f = record f {
  is_enabled = is_enabled;
  source = source;
  note = note;
}

-- The tenant that is given, else that of the request.
abbrev pub resolved_tenant : Option Tenant → Option Request → Option Tenant
resolved_tenant (some tenant) request = some tenant
resolved_tenant none none = none
resolved_tenant none (some request) = request.tenant

-- The one row of `objects.get(...)`; an exception is swallowed.
unfoldable pub override_of : List TenantFeatureFlag → Option Bool
override_of [] = none
override_of (f ∷ []) = some f.is_enabled
override_of (f ∷ f' ∷ l) = none

-- the loops of `for_tenant`
unfoldable pub apply_waffle : Waffle → Option Request → List (String × Bool) → List (String × Bool)
apply_waffle waffle request [] = []
apply_waffle waffle request ((name, b) ∷ d) =
    (name, elim (get_waffle_flag waffle name request) [ none ↦ b | some state ↦ state ])
    ∷ apply_waffle waffle request d

unfoldable pub apply_overrides :
    List TenantFeatureFlag → List (String × Bool) → List (String × Bool)
apply_overrides [] d = d
apply_overrides (f ∷ l) d = apply_overrides l (put f.flag_name f.is_enabled d)

module _ ⦃orm : Orm⦄ where
  abbrev pub tenant_override : String → Option Tenant → Db → Option Bool
  tenant_override name none db = none
  tenant_override name (some tenant) db = override_of (orm.filter (at_flag tenant.pk name) db.flags)

  module _ (waffle : Waffle) (defaults : List (String × Bool)) where
    -- `FeatureService.is_enabled`
    unfoldable pub is_enabled : String → Option Request → Option Tenant → Db → Bool
    unfolding override_of get_default
    is_enabled name request tenant db =
        elim (tenant_override name (resolved_tenant tenant request) db) [
          | some state ↦ state
          | none ↦ elim (get_waffle_flag waffle name request) [
            | some state ↦ state
            | none ↦ get_default defaults name
          ]
        ]

    -- `FeatureService.for_tenant`
    unfoldable pub for_tenant : Tenant → Option Request → Db → List (String × Bool)
    for_tenant tenant request db =
        apply_overrides (orm.filter (of_tenant_flags tenant.pk) db.flags)
          (apply_waffle waffle request defaults)

    -- `FeatureFlagsView.get` and `FeatureFlagDetailView.get`, for an authenticated user
    unfoldable pub feature_list_view : Request → Db → List (String × Bool)
    feature_list_view request db = elim request.tenant [
      | none ↦ []
      | some tenant ↦ for_tenant tenant (some request) db
    ]

    unfoldable pub feature_detail_view : String → Request → Db → String × Bool
    feature_detail_view name request db = (name, is_enabled name (some request) none db)

  -- `update_or_create` on the rows that its lookup has found
  unfoldable pub upsert_flag :
      Tenant → String → Bool → String → String → List TenantFeatureFlag → Action Unit
  upsert_flag tenant name is_enabled source note [] = modify (λ db. record db {
    flags = orm.create (new_flag tenant name is_enabled source note) db.flags;
  })
  upsert_flag tenant name is_enabled source note (f ∷ []) = modify (λ db. record db {
    flags = orm.save (at_flag tenant.pk name) (set_flag is_enabled source note) db.flags;
  })
  upsert_flag tenant name is_enabled source note (f ∷ f' ∷ l) = raise multiple_objects_returned

  -- `FeatureService.set_for_tenant`
  unfoldable pub set_for_tenant : Tenant → String → Bool → String → String → Action Unit
  unfolding upsert_flag
  set_for_tenant tenant name is_enabled source note = do
    found ← gets (λ db. orm.filter (at_flag tenant.pk name) db.flags)
    upsert_flag tenant name is_enabled source note found

  unfoldable pub set_all : Tenant → String → List (String × Bool) → Action Unit
  set_all tenant plan_slug [] = pure tt
  set_all tenant plan_slug ((name, is_enabled) ∷ l) =
      set_for_tenant tenant name is_enabled "plan" (append "Auto-set by plan: " plan_slug)
      >> set_all tenant plan_slug l

  -- `subscription.plan.slug if subscription.plan else ""`, `none` where there is no subscription
  unfoldable pub plan_slug_of : Tenant → Db → Option String
  unfolding subscription_of plan_of
  plan_slug_of tenant db = elim (subscription_of tenant db) [
    | none ↦ none
    | some sub ↦ some (elim (plan_of sub db) [ none ↦ "" | some plan ↦ plan.slug ])
  ]

  -- `FeatureService.sync_plan_flags`, on the setting PLAN_FEATURE_FLAGS
  unfoldable pub sync_plan_flags : List (String × List (String × Bool)) → Tenant → Action Unit
  unfolding plan_slug_of
  sync_plan_flags plan_flags tenant db =
      if is_empty plan_flags then (ok tt, db) else elim (plan_slug_of tenant db) [
        | none ↦ (ok tt, db)
        | some slug ↦ set_all tenant slug (elim (get slug plan_flags) [ none ↦ [] | some d ↦ d ]) db
      ]
