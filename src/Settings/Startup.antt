-- ===== src/Settings/Startup.antt =====
-- When the program starts.
use django_saas_kit.Base.{
  ap, String, true, false, some, ◌≡◌, ◌≤◌, ◌⊎◌, inl, inr, refl, arith, Bool-cases, Option-cases,
  ltb,
}
use mathlib.Core.Path.{subst}
use django_saas_kit.Orm.{ok, err}
use django_saas_kit.Text.{is_blank, strip}
use django_saas_kit.Settings.{
  ◌>>=◌, Decouple, Setting, SettingsError, undefined_value, short_secret_key, count_chars,
  required_vars, is_set, missing_of, validate_required_settings, min_secret_key_length, get_bool,
  raise_missing, check_secret_key, check_length,
}

pub Result-cases :
    {A : Type 0} (m : Setting A) → ((a : A) × (m ≡ ok a)) ⊎ ((e : SettingsError) × (m ≡ err e))
Result-cases (ok a) = inl (a, refl)
Result-cases (err e) = inr (e, refl)

module _ (config : Decouple) where
  -- A variable is defined, and not blank.
  abbrev pub IsGiven : String → Type 0
  IsGiven key = (value : String) × (config.find key ≡ some value) × (is_blank (strip value) ≡ false)

  -- Either DEBUG is on for the validation, where it counts as on if it is undefined, or the key has
  -- fifty characters.
  abbrev pub IsKeyed : Type 0
  IsKeyed =
      (get_bool config "DEBUG" true ≡ ok true)
      ⊎ ((get_bool config "DEBUG" true ≡ ok false)
          × ((key : String) → config.find "SECRET_KEY" ≡ some key → 50 ≤ count_chars (strip key)))

  abbrev pub Startable : Type 0
  Startable = IsGiven "SECRET_KEY" × IsGiven "DATABASE_URL" × IsGiven "REDIS_URL" × IsKeyed

  is_set_cases :
      (key : String)
      → (IsGiven key × (is_set config key ≡ true)) ⊎ ((¬ IsGiven key) × (is_set config key ≡ false))
  unfolding is_set
  is_set_cases key = elim (Option-cases (config.find key)) [
    | inl missing ↦ inr ((λ given. absurd (cc (missing, given.1))), rw (is_set, missing) refl)
    | inr (value, found) ↦ elim (Bool-cases (is_blank (strip value))) [
      | inl blank ↦ inr (
        (λ given.
            let same : value ≡ given.0 = cc (found, given.1) in
            absurd (cc (blank, given.2, ap (λ v. is_blank (strip v)) same))),
        rw (is_set, found, blank) refl,
      )
      | inr solid ↦ inl ((value, found, solid), rw (is_set, found, solid) refl)
    ]
  ]

  -- The test of the key that a validation ends with.
  abbrev key_test : Setting Unit
  key_test = get_bool config "DEBUG" true >>= check_secret_key config

  undebugged :
      get_bool config "DEBUG" true ≡ ok false
      → (IsKeyed × (key_test ≡ ok tt)) ⊎ ((¬ IsKeyed) × (e : SettingsError) × (key_test ≡ err e))
  unfolding check_secret_key check_length
  undebugged off = elim (Option-cases (config.find "SECRET_KEY")) [
    | inl missing ↦
        inl (
          inr (off, λ key found. absurd (cc (missing, found))),
          rw (off, check_length, missing) refl,
        )
    | inr (key, found) ↦ elim (Bool-cases (ltb (count_chars (strip key)) min_secret_key_length)) [
      | inl short ↦ inr (
        (λ keyed. elim keyed [
          | inl on ↦ absurd (cc (off, on))
          | inr (same, long) ↦ let enough = long key found in absurd (ground arith)
        ]),
        short_secret_key,
        rw (off, found, short) refl,
      )
      | inr long ↦ inl (
        inr (
          off,
          λ key' found'.
              let same : key ≡ key' = cc (found, found') in
              subst (λ k. 50 ≤ count_chars (strip k)) same (ground arith),
        ),
        rw (off, found, long) refl,
      )
    ]
  ]

  key_test_cases :
      (IsKeyed × (key_test ≡ ok tt)) ⊎ ((¬ IsKeyed) × (e : SettingsError) × (key_test ≡ err e))
  unfolding check_secret_key
  key_test_cases = elim (Result-cases (get_bool config "DEBUG" true)) [
    | inr (e, failed) ↦ inr (
      (λ keyed. elim keyed [
        | inl on ↦ absurd (cc (failed, on))
        | inr (off, long) ↦ absurd (cc (failed, off))
      ]),
      e,
      rw failed refl,
    )
    | inl (true, on) ↦ inl (inl on, rw on refl)
    | inl (false, off) ↦ undebugged off
  ]

  -- The validation passes exactly where the three variables are set and the key is accepted. It
  -- fails on the variables that are not set, where there are some.
  pub validate_exact :
      (Startable × (validate_required_settings config ≡ ok tt))
      ⊎ ((¬ Startable) × (e : SettingsError) × (validate_required_settings config ≡ err e))
  unfolding validate_required_settings raise_missing missing_of
  validate_exact = elim (is_set_cases "SECRET_KEY") [
    | inr (unset, e) ↦
        inr ((λ s. unset s.0), undefined_value (missing_of config required_vars), rw e refl)
    | inl (secret, e) ↦ elim (is_set_cases "DATABASE_URL") [
      | inr (unset, e') ↦
          inr ((λ s. unset s.1), undefined_value (missing_of config required_vars), rw (e, e') refl)
      | inl (database, e') ↦ elim (is_set_cases "REDIS_URL") [
        | inr (unset, e'') ↦ inr (
          (λ s. unset s.2),
          undefined_value (missing_of config required_vars),
          rw (e, e', e'') refl,
        )
        | inl (redis, e'') ↦ elim key_test_cases [
          | inl (keyed, passes) ↦
              inl ((secret, database, redis, keyed), rw (e, e', e'', passes) refl)
          | inr (unkeyed, error, fails) ↦
              inr ((λ s. unkeyed s.3), error, rw (e, e', e'', fails) refl)
        ]
      ]
    ]
  ]
