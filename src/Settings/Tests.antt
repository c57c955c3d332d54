-- ===== src/Settings/Tests.antt =====
-- Environments for production.
use django_saas_kit.Text.{strip}
use django_saas_kit.Base.{true, false, none, some, [], ◌∷◌, ◌≡◌, refl, str_eq, if◌then◌else◌, ◌⊎◌}
use django_saas_kit.Orm.{ok, err}
use django_saas_kit.Settings.{Decouple, Prod, SettingsError, prod}
use django_saas_kit.Settings.Production.{prod_exact, prod-short_key, Prodable, IsHardened}

-- A deployment with a key of one letter, in which DEBUG is not set.
abbrev careless : Decouple
careless = record {
  find = λ key.
      if str_eq key "SECRET_KEY"
      then some "x"
      else if str_eq key "DATABASE_URL"
      then some "sqlite:///db"
      else if str_eq key "REDIS_URL"
      then some "redis://cache"
      else if str_eq key "ALLOWED_HOSTS"
      then some "app.io"
      else if str_eq key "CORS_ALLOWED_ORIGINS"
      then some "https://app.io"
      else none;
  to_bool = λ text. if str_eq text "True" then some true else some false;
  to_int = λ text. none;
  to_list = λ text. some (if str_eq text "" then [] else text ∷ []);
  parse_database_url = λ url. some [];
  init_sentry = λ dsn. true;
}

prod_exact_example :
    (Prodable careless
      × (loaded : Prod careless) × (prod careless ≡ ok loaded)
      × IsHardened careless loaded)
    ⊎ ((¬ Prodable careless) × (e : SettingsError) × (prod careless ≡ err e))
prod_exact_example = prod_exact careless

prod-short_key_example :
    (loaded : Prod careless) × (prod careless ≡ ok loaded) × (loaded.settings.debug ≡ false)
unfolding strip
prod-short_key_example =
    prod-short_key careless "sqlite:///db" ("app.io" ∷ []) ("https://app.io" ∷ []) ("x", refl, refl)
      ("sqlite:///db", refl, refl) ("redis://cache", refl, refl) refl ([], refl) refl refl refl refl
      (refl, (refl, (refl, (refl, (refl, (refl, (refl, (refl, tt)))))))) refl refl
