-- ===== src/Settings/Production.antt =====
-- When the settings of production can be loaded, and with which secret key.
use django_saas_kit.Base.{
  String, true, false, Option, none, some, List, [], ◌∷◌, ◌≡◌, ◌⊎◌, inl, inr, refl, Bool-cases,
  is_empty,
}
use django_saas_kit.Orm.{ok, err}
use django_saas_kit.Text.{is_blank}
use django_saas_kit.Settings.{get_bool, Decouple, SettingsError, Prod, prod, start_sentry, bad_dsn}
use django_saas_kit.Settings.Reading.{
  ◌&◌, as_one, AllDecided, All, raises, returns, Decided, Decided-then, Decided-ok, IsRead, cast_of,
  text_of, IsFilled, get_bool-Decided, get_csv-Decided, configured-Decided, get_str_lem,
}
use django_saas_kit.Settings.Loading.{
  Loadable, base-Decided, Absent, default_read, optional_vars, Loadable-Absent,
}
use django_saas_kit.Settings.Startup.{IsGiven}

module _ (config : Decouple) where
  abbrev pub hosts_of : Option (List String)
  hosts_of = config.to_list (text_of config "ALLOWED_HOSTS")

  abbrev pub origins_of : Option (List String)
  origins_of = config.to_list (text_of config "CORS_ALLOWED_ORIGINS")

  -- There is no DSN, or Sentry takes it.
  abbrev pub SentryStarts : Type 0
  SentryStarts =
      (is_blank (text_of config "SENTRY_DSN") ≡ true)
      ⊎ ((is_blank (text_of config "SENTRY_DSN") ≡ false)
          × (config.init_sentry (text_of config "SENTRY_DSN") ≡ true))

  abbrev pub prod_conditions : List (Type 0)
  prod_conditions =
      Loadable config
      ∷ IsRead hosts_of
      ∷ IsFilled config hosts_of
      ∷ IsRead origins_of
      ∷ IsRead (cast_of config config.to_bool "CORS_ALLOW_CREDENTIALS" false)
      ∷ IsFilled config origins_of
      ∷ SentryStarts
      ∷ []

  -- base.py loads, the lists of hosts and of origins can be read and have an item, the flag of
  -- credentials can be read, and Sentry starts where there is a DSN.
  abbrev pub Prodable : Type 0
  Prodable = All prod_conditions

  -- DEBUG is off, and the hosts and origins are those of the environment.
  abbrev pub IsHardened : Prod config → Type 0
  IsHardened loaded =
      (loaded.settings.debug ≡ false)
      × (hosts_of ≡ some loaded.settings.allowed_hosts)
      × (origins_of ≡ some loaded.cors_allowed_origins)

  sentry-Decided :
      Decided SentryStarts (start_sentry config (text_of config "SENTRY_DSN")) (λ _. Unit)
  sentry-Decided = elim (Bool-cases (is_blank (text_of config "SENTRY_DSN"))) [
    | inl blank ↦ returns (inl blank) tt (rw blank refl) tt
    | inr given ↦ elim (Bool-cases (config.init_sentry (text_of config "SENTRY_DSN"))) [
      | inl starts ↦ returns (inr (given, starts)) tt (rw (given, starts) refl) tt
      | inr bad ↦
          raises
            (λ h. elim h [
              | inl blank ↦ absurd (cc (given, blank))
              | inr (given', starts) ↦ absurd (cc (bad, starts))
            ])
            bad_dsn (rw (given, bad) refl)
    ]
  ]

  prod-Decided : AllDecided prod_conditions (prod config) IsHardened
  unfolding prod
  prod-Decided = Decided-then (as_one (base-Decided config)) (λ loaded _.
      Decided-then (get_csv-Decided config "ALLOWED_HOSTS") (λ hosts listed.
        Decided-then (configured-Decided config "ALLOWED_HOSTS" hosts_of hosts listed) (λ _ _.
          Decided-then (get_csv-Decided config "CORS_ALLOWED_ORIGINS") (λ origins listed'.
            Decided-then (get_bool-Decided config "CORS_ALLOW_CREDENTIALS" false) (λ allow _.
              Decided-then
                (configured-Decided config "CORS_ALLOWED_ORIGINS" origins_of origins listed')
                (λ _ _.
                  rw (get_str_lem config "SENTRY_DSN") (
                    Decided-then sentry-Decided (λ _ _. Decided-ok _ (refl, listed, listed')))))))))

  -- Loading the settings of production returns exactly where the validation passes, every flag,
  -- number and list that is in the environment can be read, the URL of the database can be parsed,
  -- the lifetimes of the tokens fit, the lists of hosts and of origins are not empty, and Sentry
  -- takes the DSN, if there is one; DEBUG is then off, and the hosts and origins are those of the
  -- environment. Otherwise it raises.
  pub prod_exact :
      (Prodable × (loaded : Prod config) × (prod config ≡ ok loaded) × IsHardened loaded)
      ⊎ ((¬ Prodable) × (e : SettingsError) × (prod config ≡ err e))
  prod_exact = elim (as_one prod-Decided) [
    | returns may loaded loads hardened ↦ inl (may, loaded, loads, hardened)
    | raises never e fails ↦ inr (never, e, fails)
  ]

  -- In production the length of the key is not tested where DEBUG is not in the environment: where
  -- the required variables are set, the URL of the database can be parsed, the lists of hosts and of
  -- origins can be read and are not empty, and neither the other flags and numbers nor a DSN are in
  -- the environment, loading the settings returns with DEBUG off, however short the key is.
  pub prod-short_key :
      (url : String) (hosts origins : List String)
      → IsGiven config "SECRET_KEY"
      → IsGiven config "DATABASE_URL"
      → IsGiven config "REDIS_URL"
      → config.find "DATABASE_URL" ≡ some url
      → IsRead (config.parse_database_url url)
      → hosts_of ≡ some hosts
      → is_empty hosts ≡ false
      → origins_of ≡ some origins
      → is_empty origins ≡ false
      → Absent config optional_vars
      → config.find "CORS_ALLOW_CREDENTIALS" ≡ none
      → config.find "SENTRY_DSN" ≡ none
      → (loaded : Prod config) × (prod config ≡ ok loaded) × (loaded.settings.debug ≡ false)
  unfolding get_bool
  prod-short_key url hosts origins secret database redis found parsed listed somewhere listed'
        somebody absent cors sentry =
      let may : Prodable =
        Loadable-Absent config (secret, database, redis, inl (rw (get_bool, absent.0) refl))
          (hosts, listed) (url, found, parsed) absent
        & (hosts, listed)
        & (hosts, listed, somewhere)
        & (origins, listed')
        & (_, default_read config config.to_bool "CORS_ALLOW_CREDENTIALS" false cors)
        & (origins, listed', somebody)
        & inl (rw (text_of, sentry) refl)
        & tt in
      elim prod_exact [
        | inl (p, loaded, loads, hardened) ↦ (loaded, loads, hardened.0)
        | inr (never, e, fails) ↦ absurd (never may)
      ]
