-- ===== src/Settings/Loading.antt =====
-- When base.py can be loaded.
use django_saas_kit.Base.{
  String, true, false, Option, none, some, List, [], ◌∷◌, ◌≡◌, inl, inr, refl,
}
use django_saas_kit.Settings.{
  timedelta, ◌>>=◌, get_int, Setting, ℤ, Decouple, Base, base, fits_minutes, fits_days, pos,
  validate_required_settings,
}
use django_saas_kit.Settings.Reading.{
  ◌&◌, AllDecided, All, raises, returns, Decided, Decided-then, Decided-ok, IsRead, cast_of,
  text_of, IsParsed, Fits, get_required-Decided, get_bool-Decided, get_int-Decided, get_csv-Decided,
  get_database-Decided, timedelta-Decided,
}
use django_saas_kit.Settings.Startup.{validate_exact, Startable}

-- The flags and numbers of base.py.
abbrev pub optional_vars : List String
optional_vars =
    "DEBUG" ∷ "USE_S3" ∷ "JWT_ACCESS_TOKEN_LIFETIME_MINUTES" ∷ "JWT_REFRESH_TOKEN_LIFETIME_DAYS"
    ∷ "EMAIL_PORT" ∷ "EMAIL_USE_TLS" ∷ "EMAIL_USE_SSL" ∷ "PASSWORD_RESET_TIMEOUT" ∷ []

module _ (config : Decouple) where
  abbrev pub minutes_of : Option ℤ
  minutes_of = cast_of config config.to_int "JWT_ACCESS_TOKEN_LIFETIME_MINUTES" (pos 15)

  abbrev pub days_of : Option ℤ
  days_of = cast_of config config.to_int "JWT_REFRESH_TOKEN_LIFETIME_DAYS" (pos 7)

  -- The validation passes, and what base.py casts can be cast: the lists and flags, the URL of the
  -- database, the lifetimes, which fit a `timedelta`, and the numbers.
  abbrev pub base_conditions : List (Type 0)
  base_conditions =
      Startable config
      ∷ IsRead (config.find "SECRET_KEY")
      ∷ IsRead (cast_of config config.to_bool "DEBUG" false)
      ∷ IsRead (config.to_list (text_of config "ALLOWED_HOSTS"))
      ∷ IsParsed config
      ∷ IsRead (cast_of config config.to_bool "USE_S3" false)
      ∷ IsRead minutes_of
      ∷ Fits config fits_minutes minutes_of
      ∷ IsRead days_of
      ∷ Fits config fits_days days_of
      ∷ IsRead (config.find "REDIS_URL")
      ∷ IsRead (cast_of config config.to_int "EMAIL_PORT" (pos 587))
      ∷ IsRead (cast_of config config.to_bool "EMAIL_USE_TLS" true)
      ∷ IsRead (cast_of config config.to_bool "EMAIL_USE_SSL" false)
      ∷ IsRead (cast_of config config.to_int "PASSWORD_RESET_TIMEOUT" (pos 3600))
      ∷ []

  abbrev pub Loadable : Type 0
  Loadable = All base_conditions

  validated : Decided (Startable config) (validate_required_settings config) (λ _. Unit)
  validated = elim (validate_exact config) [
    | inl (startable, passes) ↦ returns startable tt passes tt
    | inr (never, e, fails) ↦ raises never e fails
  ]

  -- The two lifetimes, and what comes after them.
  lifetimes-Decided :
      {Ps : List (Type 0)} {f : ℤ → ℤ → Setting (Base config)}
      → ((minutes days : ℤ) → AllDecided Ps (f minutes days) (λ _. Unit))
      → AllDecided
          (IsRead minutes_of
            ∷ Fits config fits_minutes minutes_of
            ∷ IsRead days_of
            ∷ Fits config fits_days days_of
            ∷ Ps)
          (get_int config "JWT_ACCESS_TOKEN_LIFETIME_MINUTES" (some (pos 15)) >>= λ minutes.
            timedelta config "JWT_ACCESS_TOKEN_LIFETIME_MINUTES" fits_minutes minutes >>= λ m.
            get_int config "JWT_REFRESH_TOKEN_LIFETIME_DAYS" (some (pos 7)) >>= λ days.
            timedelta config "JWT_REFRESH_TOKEN_LIFETIME_DAYS" fits_days days >>= λ d. f m d)
          (λ _. Unit)
  lifetimes-Decided after_them =
      Decided-then (get_int-Decided config "JWT_ACCESS_TOKEN_LIFETIME_MINUTES" (pos 15))
        (λ minutes read.
          Decided-then (timedelta-Decided config _ fits_minutes minutes_of minutes read) (λ m _.
            Decided-then (get_int-Decided config "JWT_REFRESH_TOKEN_LIFETIME_DAYS" (pos 7))
              (λ days read'.
                Decided-then (timedelta-Decided config _ fits_days days_of days read')
                  (λ d _. after_them m d))))

  pub base-Decided : AllDecided base_conditions (base config) (λ _. Unit)
  unfolding base
  base-Decided = Decided-then validated (λ _ _.
      Decided-then (get_required-Decided config "SECRET_KEY") (λ secret _.
        Decided-then (get_bool-Decided config "DEBUG" false) (λ debug _.
          Decided-then (get_csv-Decided config "ALLOWED_HOSTS") (λ hosts _.
            Decided-then (get_database-Decided config) (λ database _.
              Decided-then (get_bool-Decided config "USE_S3" false) (λ use_s3 _.
                lifetimes-Decided (λ minutes days.
                  Decided-then (get_required-Decided config "REDIS_URL") (λ redis _.
                    Decided-then (get_int-Decided config "EMAIL_PORT" (pos 587)) (λ port _.
                      Decided-then (get_bool-Decided config "EMAIL_USE_TLS" true) (λ tls _.
                        Decided-then (get_bool-Decided config "EMAIL_USE_SSL" false) (λ ssl _.
                          Decided-then (get_int-Decided config "PASSWORD_RESET_TIMEOUT" (pos 3600))
                            (λ timeout _. Decided-ok _ tt))))))))))))

  -- None of the variables is in the environment.
  abbrev pub Absent : List String → Type 0
  Absent [] = Unit
  Absent (key ∷ keys) = (config.find key ≡ none) × Absent keys

  pub default_read :
      {A : Type 0} (cast : String → Option A) (key : String) (default : A)
      → config.find key ≡ none
      → cast_of config cast key default ≡ some default
  default_read cast key default missing = rw (cast_of, missing) refl

  -- What is not in the environment does not keep base.py from being loaded, whatever the key is.
  pub Loadable-Absent :
      Startable config
      → IsRead (config.to_list (text_of config "ALLOWED_HOSTS"))
      → IsParsed config
      → Absent optional_vars
      → Loadable
  Loadable-Absent startable listed parsed
        (debug, (s3, (minutes, (days, (port, (tls, (ssl, (timeout, _)))))))) =
      let m = default_read config.to_int "JWT_ACCESS_TOKEN_LIFETIME_MINUTES" (pos 15) minutes in
      let d = default_read config.to_int "JWT_REFRESH_TOKEN_LIFETIME_DAYS" (pos 7) days in
      let from_s3 = default_read config.to_bool "USE_S3" false s3 in
      let read_port = default_read config.to_int "EMAIL_PORT" (pos 587) port in
      let read_timeout = default_read config.to_int "PASSWORD_RESET_TIMEOUT" (pos 3600) timeout in
      startable
      & (startable.0.0, startable.0.1)
      & (_, default_read config.to_bool "DEBUG" false debug)
      & listed
      & parsed
      & (_, from_s3)
      & (_, m)
      & (_, m, refl)
      & (_, d)
      & (_, d, refl)
      & (startable.2.0, startable.2.1)
      & (_, read_port)
      & (_, default_read config.to_bool "EMAIL_USE_TLS" true tls)
      & (_, default_read config.to_bool "EMAIL_USE_SSL" false ssl)
      & (_, read_timeout)
      & tt
