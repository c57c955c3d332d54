-- ===== src/Idempotency.antt =====
-- services/common/idempotency.py: a task that is delivered twice. Python's None is `none`.
use django_saas_kit.Orm.{err, ok, Result}
use django_saas_kit.Text.{append}
use django_saas_kit.Base.{
  eq_iff, str_eq, arith, true, inr, inl, ltb, ◌<◌, ◌⊎◌, Option, String, ℕ, ◌+◌, ◌*◌, refl, ◌≡◌,
  none, some,
}
use django_saas_kit.Cache.{Cache}

-- `DEFAULT_TTL_SECONDS`
abbrev pub default_ttl : ℕ
default_ttl = 60 * 60 * 24

-- `KEY_PREFIX`
abbrev key_prefix : String
key_prefix = "celery:idempotent"

-- `build_key`
unfoldable pub build_key : (task_name business_id : String) → String
build_key task_name business_id = append task_name (append ":" business_id)

-- `cache_key`
unfoldable pub idempotency_key : String → String
idempotency_key key = append key_prefix (append ":" key)

module _ {V E S : Type 0} ⦃cache : Cache V⦄ where
  -- `cache.set(...)` after the operation, unless it raised; a None that is stored reads as no entry
  unfoldable pub keep_result :
      ℕ → String → ℕ → cache.Store → Result E (Option V) × S → Result E (Option V) × S × cache.Store
  keep_result now key ttl c (ok (some v), s) = (ok (some v), s, cache.set now key v ttl c)
  keep_result now key ttl c (ok none, s) = (ok none, s, c)
  keep_result now key ttl c (err e, s) = (err e, s, c)

  -- `IdempotencyService.run`
  unfoldable pub run_idempotent :
      ℕ
      → String
      → ℕ
      → (S → Result E (Option V) × S)
      → S
      → cache.Store
      → Result E (Option V) × S × cache.Store
  run_idempotent now key ttl operation s c = elim (cache.get now (idempotency_key key) c) [
    | some v ↦ (ok (some v), s, c)
    | none ↦ keep_result now (idempotency_key key) ttl c (operation s)
  ]

  run_new :
      (now ttl : ℕ) (key : String) (operation : S → Result E (Option V) × S) (s : S)
      (c : cache.Store)
      → cache.get now (idempotency_key key) c ≡ none
      → run_idempotent now key ttl operation s c
        ≡ keep_result now (idempotency_key key) ttl c (operation s)
  unfolding run_idempotent
  run_new now ttl key operation s c e = rw (run_idempotent, e) refl

  run_kept :
      (now ttl : ℕ) (key : String) (operation : S → Result E (Option V) × S) (s : S)
      (c : cache.Store) (v : V)
      → cache.get now (idempotency_key key) c ≡ some v
      → run_idempotent now key ttl operation s c ≡ (ok (some v), s, c)
  unfolding run_idempotent
  run_kept now ttl key operation s c v e = rw (run_idempotent, e) refl

  module _ (now later ttl : ℕ) (key : String) (operation again : S → Result E (Option V) × S)
      (s s' : S) (c : cache.Store) where
    -- Where the key was not cached and the operation returned a value other than None, a second run
    -- under the same key, within the time to live, returns the same value, does not run its
    -- operation, and changes neither the state nor the cache.
    pub run_once :
        (v : V)
        → cache.get now (idempotency_key key) c ≡ none
        → operation s ≡ (ok (some v), s')
        → later < now + ttl
        → let (r, s1, c1) = run_idempotent now key ttl operation s c in
          (r ≡ ok (some v))
          × (s1 ≡ s')
          × (run_idempotent later key ttl again s1 c1 ≡ (ok (some v), s1, c1))
    unfolding keep_result
    run_once v empty returns soon =
        let kept : ltb later (now + ttl) ≡ true = ground arith in
        let same : str_eq (idempotency_key key) (idempotency_key key) ≡ true =
          (eq_iff (idempotency_key key) (idempotency_key key)).1 refl in
        rw (run_new now ttl key operation s c empty, returns, keep_result)
          (refl, refl, run_kept later ttl key again s' _ v (rw (cache.get-set, same, kept) refl))

    -- Where the key was not cached then and later, and the operation raised or returned None, a
    -- second run under the same key runs its operation on the state that the first one left.
    run_repeats :
        (r : Result E (Option V))
        → cache.get now (idempotency_key key) c ≡ none
        → cache.get later (idempotency_key key) c ≡ none
        → operation s ≡ (r, s')
        → (r ≡ ok none) ⊎ ((e : E) × (r ≡ err e))
        → let (r1, s1, c1) = run_idempotent now key ttl operation s c in
          (r1 ≡ r)
          × (s1 ≡ s')
          × (run_idempotent later key ttl again s1 c1
              ≡ keep_result later (idempotency_key key) ttl c (again s'))
    unfolding keep_result
    run_repeats r empty still_empty returns failed = elim failed [
      | inl nothing ↦
          rw (run_new now ttl key operation s c empty, returns, nothing, keep_result)
            (refl, refl, run_new later ttl key again s' c still_empty)
      | inr (e, raised) ↦
          rw (run_new now ttl key operation s c empty, returns, raised, keep_result)
            (refl, refl, run_new later ttl key again s' c still_empty)
    ]
