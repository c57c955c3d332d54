-- ===== src/Common/Throttling.antt =====
-- apps/common/throttling.py: the rates and the keys of the throttles. Counting the requests of a key
-- against a rate, the address of a client and the format of a key are the REST framework's.
use django_saas_kit.Base.{
  refl, inl, [], inr, ◌∷◌, ◌⊎◌, false, ◌≡◌, ℕ, String, Bool, true, Option, none, some, List,
  is_empty, if◌then◌else◌,
}
use django_saas_kit.Orm.{Orm}
use django_saas_kit.Models.{Db, Tenant, User}
use django_saas_kit.Http.{Request, Requester, anonymous, authenticated}
use django_saas_kit.Text.{append}
use django_saas_kit.Features.Dict.{get}
use django_saas_kit.Features.Service.{plan_slug_of}

-- `SimpleRateThrottle`: `allow` counts a request of a key, and refuses it over the rate.
pub record RateThrottle : Type 1 where
  pub Store : Type 0
  pub allow : (rate key : String) → Store → Bool × Store
  pub get_ident : Request → String
  pub cache_format : (scope ident : String) → String

-- `rates.get(key, default)`
abbrev pub get_or : String → List (String × String) → (default : String) → String
get_or key rates otherwise = elim (get key rates) [ none ↦ otherwise | some rate ↦ rate ]

-- `get_rate` of the throttles with a scope, on DEFAULT_THROTTLE_RATES
module _ (rates : List (String × String)) where
  unfoldable pub login_rate : String
  login_rate = get_or "login" rates "5/minute"

  unfoldable pub register_rate : String
  register_rate = get_or "register" rates "3/hour"

  unfoldable pub password_reset_rate : String
  password_reset_rate = get_or "password_reset" rates "5/hour"

  -- of AnonRateThrottle and UserRateThrottle; none where it raises
  abbrev pub anon_rate : Option String
  anon_rate = get "anon" rates

  abbrev pub user_rate : Option String
  user_rate = get "user" rates

  -- `TenantPlanThrottle.get_rate`, with the setting THROTTLE_USER_RATE
  unfoldable pub default_rate : (throttle_user_rate : Option String) → String
  default_rate setting =
      get_or "user" rates (elim setting [ none ↦ "100/minute" | some rate ↦ rate ])

-- A dict that has a key is not empty.
is_empty-get :
    (key : String) (rates : List (String × String)) (rate : String)
    → get key rates ≡ some rate
    → is_empty rates ≡ false
unfolding get
is_empty-get key [] rate known = absurd (cc known)
is_empty-get key (entry ∷ rates) rate known = refl

module _ (str : ℕ → String) (throttle : RateThrottle) where
  -- `AnonRateThrottle.get_cache_key`
  anon_key_of : Request → Requester → Option String
  anon_key_of request anonymous = some (throttle.cache_format "anon" (throttle.get_ident request))
  anon_key_of request (authenticated user) = none

  unfoldable pub anon_key : Request → Option String
  unfolding anon_key_of
  anon_key request = anon_key_of request request.user

  -- `UserRateThrottle.get_cache_key`
  user_ident : Request → Requester → String
  user_ident request anonymous = throttle.get_ident request
  user_ident request (authenticated user) = str user.pk

  unfoldable pub user_key : Request → String
  unfolding user_ident
  user_key request = throttle.cache_format "user" (user_ident request request.user)

  -- `str(tenant.pk) if tenant else "no_tenant"`
  abbrev pub tenant_ident : Option Tenant → String
  tenant_ident none = "no_tenant"
  tenant_ident (some tenant) = str tenant.pk

  -- `TenantPlanThrottle.get_cache_key`, for a user that is authenticated
  abbrev pub plan_key : Request → User → String
  plan_key request user =
      throttle.cache_format "plan" (append (str user.pk) (append ":" (tenant_ident request.tenant)))

  module _ ⦃orm : Orm⦄ (plan_rates rates : List (String × String)) (setting : Option String) where
    -- `_resolve_plan_rate`, on the setting PLAN_THROTTLE_RATES
    plan_rate_of : Option Tenant → Db → Option String
    unfolding plan_slug_of
    plan_rate_of none db = none
    plan_rate_of (some tenant) db = elim (plan_slug_of tenant db) [
      | none ↦ none
      | some slug ↦ get slug plan_rates
    ]

    unfoldable pub resolve_plan_rate : Request → Db → Option String
    unfolding plan_rate_of
    resolve_plan_rate request db =
        if is_empty plan_rates then none else plan_rate_of request.tenant db

    -- the rate that `allow_request` sets
    unfoldable pub rate_for : Request → Db → String
    unfolding resolve_plan_rate default_rate
    rate_for request db = elim (resolve_plan_rate request db) [
      | some rate ↦ rate
      | none ↦ default_rate rates setting
    ]

    allow_for : Request → Requester → Db → throttle.Store → Bool × throttle.Store
    unfolding rate_for
    allow_for request anonymous db s = (true, s)
    allow_for request (authenticated user) db s =
        throttle.allow (rate_for request db) (plan_key request user) s

    -- `TenantPlanThrottle.allow_request`
    unfoldable pub allow_request : Request → Db → throttle.Store → Bool × throttle.Store
    unfolding allow_for
    allow_request request db s = allow_for request request.user db s

    anon_or_plan_of :
        (request : Request) (who : Requester)
        → (anon_key_of request who ≡ none)
          ⊎ ((db : Db) (s : throttle.Store) → allow_for request who db s ≡ (true, s))
    unfolding anon_key_of allow_for
    anon_or_plan_of request anonymous = inr (λ db s. refl)
    anon_or_plan_of request (authenticated user) = inl refl

    -- No request is counted both as one of an anonymous client and against a plan.
    anon_or_plan :
        (request : Request)
        → (anon_key request ≡ none)
          ⊎ ((db : Db) (s : throttle.Store) → allow_request request db s ≡ (true, s))
    unfolding anon_key allow_request
    anon_or_plan request = anon_or_plan_of request request.user

    -- A user at a tenant whose plan has a rate is held to that rate, under a key that has the user
    -- and the tenant.
    allow_request_lem :
        (request : Request) (user : User) (tenant : Tenant) (slug rate : String) (db : Db)
        (s : throttle.Store)
        → request.user ≡ authenticated user
        → request.tenant ≡ some tenant
        → plan_slug_of tenant db ≡ some slug
        → get slug plan_rates ≡ some rate
        → allow_request request db s ≡ throttle.allow rate (plan_key request user) s
    unfolding allow_request rate_for resolve_plan_rate
    allow_request_lem request user tenant slug rate db s signed at of_plan known =
        let some_rates : is_empty plan_rates ≡ false = is_empty-get slug plan_rates rate known in
        rw
          (
            signed, allow_for, rate_for, resolve_plan_rate, some_rates, at, plan_rate_of, of_plan,
            known,
          )
          refl
