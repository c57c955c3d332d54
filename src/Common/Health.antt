-- ===== src/Common/Health.antt =====
-- apps/common/health_checks.py and the views of apps/common/views.py. Whether the database and the
-- cache can be reached, or raise, the environment decides.
use django_saas_kit.Base.{
  List, Bool, String, ℕ, Option, none, some, [], ◌∷◌, true, false, if◌then◌else◌, str_eq, ◌&&◌, ◌≡◌,
  refl, arith, ltb, ◌+◌,
}
use django_saas_kit.Cache.{Cache}

abbrev pub probe_key : String
probe_key = "health:redis"

-- `cache.get(probe_key) != "ok"`
abbrev pub is_probe : Option String → Bool
is_probe none = false
is_probe (some value) = str_eq value "ok"

-- `all(value == "ok" for value in checks.values())`
unfoldable pub all_ok : List (String × String) → Bool
all_ok [] = true
all_ok ((name, value) ∷ checks) = str_eq value "ok" && all_ok checks

module _ ⦃cache : Cache String⦄ (now : ℕ) (database_up redis_up : Bool) where
  -- `check_redis`, once the cache was reached
  unfoldable pub check_redis : cache.Store → String × cache.Store
  check_redis c =
      let probed = cache.set now probe_key "ok" 5 c in
      if is_probe (cache.get now probe_key probed)
      then ("ok", cache.delete probe_key probed)
      else ("error", probed)

  -- `run_readiness_checks`
  abbrev database_check : String
  database_check = if database_up then "ok" else "error"

  unfoldable pub run_readiness_checks : cache.Store → (List (String × String) × Bool) × cache.Store
  unfolding check_redis all_ok
  run_readiness_checks c =
      let (redis, c') = if redis_up then check_redis c else ("error", c) in
      let checks = ("database", database_check) ∷ ("redis", redis) ∷ [] in
      ((checks, all_ok checks), c')

  -- `ReadinessCheckView.get`: the status
  unfoldable pub readiness_view : cache.Store → ℕ × cache.Store
  unfolding run_readiness_checks
  readiness_view c =
      let ((checks, all_up), c') = run_readiness_checks c in ((if all_up then 200 else 503), c')

  -- A cache that can be reached passes its probe, and keeps what it has under every other key.
  check_redis_lem :
      (c : cache.Store)
      → ((check_redis c).0 ≡ "ok")
        × ((later : ℕ) (key : String)
            → str_eq probe_key key ≡ false
            → cache.get later key (check_redis c).1 ≡ cache.get later key c)
  unfolding check_redis
  check_redis_lem c =
      let kept : ltb now (now + 5) ≡ true = ground arith in
      let probed : cache.get now probe_key (cache.set now probe_key "ok" 5 c) ≡ some "ok" =
        rw (cache.get-set, kept) refl in
      let passes : is_probe (cache.get now probe_key (cache.set now probe_key "ok" 5 c)) ≡ true =
        rw probed refl in
      rw passes (refl, λ later key apart. rw (cache.get-delete, apart, cache.get-set, apart) refl)

-- The probe answers 200 exactly where both can be reached, and leaves every other key of the cache
-- as it was.
readiness_view_lem :
    ⦃cache : Cache String⦄ (now : ℕ) (database_up redis_up : Bool) (c : cache.Store)
    → let (status, c') = readiness_view now database_up redis_up c in
      (status ≡ (if database_up && redis_up then 200 else 503))
      × ((later : ℕ) (key : String)
          → str_eq probe_key key ≡ false
          → cache.get later key c' ≡ cache.get later key c)
unfolding readiness_view run_readiness_checks all_ok
readiness_view_lem now true true c =
    let (passes, kept) = check_redis_lem now true true c in (rw passes refl, kept)
readiness_view_lem now false true c = (refl, (check_redis_lem now false true c).1)
readiness_view_lem now true false c = (refl, λ later key apart. refl)
readiness_view_lem now false false c = (refl, λ later key apart. refl)
