-- ===== src/Settings.antt =====
-- config/env.py, and of config/settings the values of base.py and prod.py that decide whether the
-- settings can be loaded. What python-decouple finds for a variable, in the environment or in a .env
-- file, and its casts, are parameters, as are dj_database_url and sentry_sdk. Constants are left out,
-- and so are the texts of base.py that have a default: reading them never raises.
pub mod Reading
pub mod Startup
pub mod Loading
pub mod Production
mod Tests
use Prim.Native.String.{[] as nil, ◌∷◌ as cons}
use django_saas_kit.Base.{
  ◌/◌, leb, ℕ, suc, String, Bool, true, false, not, Option, none, some, List, [], ◌∷◌, is_empty,
  ltb, if◌then◌else◌,
}
use django_saas_kit.Orm.{Result, ok, err}
use django_saas_kit.Text.{is_blank, strip}

pub data SettingsError : Type 0 where
  undefined_value : (keys : List String) → SettingsError
  bad_cast : (key : String) → SettingsError
  short_secret_key : SettingsError
  bad_database_url : SettingsError
  overflow : (key : String) → SettingsError
  bad_dsn : SettingsError
  improperly_configured : (key : String) → SettingsError

-- Python's integers
pub data ℤ : Type 0 where
  pos : ℕ → ℤ
  negsuc : ℕ → ℤ

-- The numbers of days that `timedelta` holds, and of minutes; it raises an OverflowError for others.
abbrev pub fits_days : ℤ → Bool
fits_days (pos n) = leb n 999999999
fits_days (negsuc n) = leb (suc n) 999999999

abbrev pub fits_minutes : ℤ → Bool
fits_minutes (pos n) = leb (n / 1440) 999999999
fits_minutes (negsuc n) = leb (suc (n / 1440)) 999999999

-- What the settings use of other packages.
pub record Decouple : Type 0 where
  -- the text of a variable, none where it is undefined
  pub find : String → Option String
  -- `cast=bool`, `cast=int` and `cast=Csv()`; none where the cast raises
  pub to_bool : String → Option Bool
  pub to_int : String → Option ℤ
  pub to_list : String → Option (List String)
  -- `dj_database_url.parse(url, conn_max_age=600)`, as its keys and values; none where it raises
  pub parse_database_url : String → Option (List (String × String))
  -- whether `sentry_sdk.init` returns for a DSN
  pub init_sentry : String → Bool

abbrev pub Setting : Type 0 → Type 0
Setting A = Result SettingsError A

infixl 5 ◌>>=◌
abbrev pub ◌>>=◌ : {A B : Type 0} → Setting A → (A → Setting B) → Setting B
ok a >>= f = f a
err e >>= f = err e

-- `len` of a text
unfoldable pub count_chars : String → ℕ
count_chars nil = 0
count_chars (cons c s) = suc (count_chars s)

-- `REQUIRED_VARS`
abbrev pub required_vars : List String
required_vars = "SECRET_KEY" ∷ "DATABASE_URL" ∷ "REDIS_URL" ∷ []

-- `_MIN_SECRET_KEY_LENGTH`
abbrev pub min_secret_key_length : ℕ
min_secret_key_length = 50

abbrev pub cast_or_raise : {A : Type 0} → (key : String) → Option A → Setting A
cast_or_raise key none = err (bad_cast key)
cast_or_raise key (some a) = ok a

module _ (config : Decouple) where
  -- `get_str(key, required=True)`, and `get_str(key, default=...)`
  unfoldable pub get_required : (key : String) → Setting String
  get_required key = elim (config.find key) [
    | none ↦ err (undefined_value (key ∷ []))
    | some value ↦ ok value
  ]

  unfoldable pub get_str : (key default : String) → Setting String
  get_str key default = elim (config.find key) [ none ↦ ok default | some value ↦ ok value ]

  unfoldable pub get_bool : (key : String) (default : Bool) → Setting Bool
  get_bool key default = elim (config.find key) [
    | none ↦ ok default
    | some value ↦ cast_or_raise key (config.to_bool value)
  ]

  -- `get_int`, without a default and with one
  unfoldable pub get_int : (key : String) (default : Option ℤ) → Setting ℤ
  get_int key none = get_required key >>= λ value. cast_or_raise key (config.to_int value)
  get_int key (some default) = elim (config.find key) [
    | none ↦ ok default
    | some value ↦ cast_or_raise key (config.to_int value)
  ]

  unfoldable pub get_csv : (key default : String) → Setting (List String)
  unfolding get_str
  get_csv key default = get_str key default >>= λ value. cast_or_raise key (config.to_list value)

  -- Whether a variable is defined and not blank.
  unfoldable pub is_set : String → Bool
  is_set key = elim (config.find key) [ none ↦ false | some value ↦ not (is_blank (strip value)) ]

  -- The loop of `validate_required_settings`
  unfoldable pub missing_of : List String → List String
  missing_of [] = []
  missing_of (key ∷ keys) = let rest = missing_of keys in if is_set key then rest else key ∷ rest

  -- The test of the key's length; an undefined key was caught above.
  unfoldable pub check_length : Option String → Setting Unit
  unfolding count_chars
  check_length none = ok tt
  check_length (some key) =
      if ltb (count_chars (strip key)) min_secret_key_length then err short_secret_key else ok tt

  unfoldable pub check_secret_key : (debug : Bool) → Setting Unit
  unfolding check_length
  check_secret_key debug = if debug then ok tt else check_length (config.find "SECRET_KEY")

  unfoldable pub raise_missing : List String → Setting Unit
  unfolding get_bool check_secret_key
  raise_missing [] = get_bool "DEBUG" true >>= check_secret_key
  raise_missing (key ∷ keys) = err (undefined_value (key ∷ keys))

  -- `validate_required_settings`
  unfoldable pub validate_required_settings : Setting Unit
  unfolding raise_missing missing_of is_set
  validate_required_settings = raise_missing (missing_of required_vars)

  abbrev pub parsed : Option (List (String × String)) → Setting (List (String × String))
  parsed none = err bad_database_url
  parsed (some settings) = ok settings

  -- `get_database_url_config`
  unfoldable pub get_database_url_config : Setting (List (String × String))
  unfolding get_required
  get_database_url_config =
      get_required "DATABASE_URL" >>= λ url. parsed (config.parse_database_url url)

  -- `timedelta(minutes=...)` and `timedelta(days=...)`
  abbrev pub timedelta : (key : String) → (ℤ → Bool) → ℤ → Setting ℤ
  timedelta key fits n = if fits n then ok n else err (overflow key)

  -- config/settings/base.py: what is read with a cast, or must be there
  pub record Base : Type 0 where
    pub secret_key : String
    pub debug : Bool
    pub allowed_hosts : List String
    pub database : List (String × String)
    pub use_s3 : Bool
    pub access_token_minutes : ℤ
    pub refresh_token_days : ℤ
    pub redis_url : String
    pub email_port : ℤ
    pub email_use_tls : Bool
    pub email_use_ssl : Bool
    pub password_reset_timeout : ℤ

  unfoldable pub base : Setting Base
  unfolding validate_required_settings get_required get_bool get_int get_csv get_database_url_config
  base = do
    validated ← validate_required_settings
    secret_key ← get_required "SECRET_KEY"
    debug ← get_bool "DEBUG" false
    allowed_hosts ← get_csv "ALLOWED_HOSTS" ""
    database ← get_database_url_config
    use_s3 ← get_bool "USE_S3" false
    minutes ← get_int "JWT_ACCESS_TOKEN_LIFETIME_MINUTES" (some (pos 15))
    access_minutes ← timedelta "JWT_ACCESS_TOKEN_LIFETIME_MINUTES" fits_minutes minutes
    days ← get_int "JWT_REFRESH_TOKEN_LIFETIME_DAYS" (some (pos 7))
    refresh_days ← timedelta "JWT_REFRESH_TOKEN_LIFETIME_DAYS" fits_days days
    redis_url ← get_required "REDIS_URL"
    email_port ← get_int "EMAIL_PORT" (some (pos 587))
    email_use_tls ← get_bool "EMAIL_USE_TLS" true
    email_use_ssl ← get_bool "EMAIL_USE_SSL" false
    password_reset_timeout ← get_int "PASSWORD_RESET_TIMEOUT" (some (pos 3600))
    ok (record {
      secret_key = secret_key;
      debug = debug;
      allowed_hosts = allowed_hosts;
      database = database;
      use_s3 = use_s3;
      access_token_minutes = access_minutes;
      refresh_token_days = refresh_days;
      redis_url = redis_url;
      email_port = email_port;
      email_use_tls = email_use_tls;
      email_use_ssl = email_use_ssl;
      password_reset_timeout = password_reset_timeout;
    })

  -- config/settings/prod.py
  pub record Prod : Type 0 where
    pub settings : Base
    pub cors_allowed_origins : List String
    pub cors_allow_credentials : Bool
    pub sentry_dsn : String
    pub secure_ssl_redirect : Bool

  abbrev pub configured : (key : String) → List String → Setting Unit
  configured key values = if is_empty values then err (improperly_configured key) else ok tt

  abbrev pub start_sentry : (dsn : String) → Setting Unit
  start_sentry dsn =
      if is_blank dsn then ok tt else if config.init_sentry dsn then ok tt else err bad_dsn

  unfoldable pub prod : Setting Prod
  unfolding base get_csv get_bool get_str
  prod = do
    loaded ← base
    allowed_hosts ← get_csv "ALLOWED_HOSTS" ""
    hosts_given ← configured "ALLOWED_HOSTS" allowed_hosts
    origins ← get_csv "CORS_ALLOWED_ORIGINS" ""
    credentials ← get_bool "CORS_ALLOW_CREDENTIALS" false
    origins_given ← configured "CORS_ALLOWED_ORIGINS" origins
    sentry_dsn ← get_str "SENTRY_DSN" ""
    started ← start_sentry sentry_dsn
    ok (record {
      settings = record loaded { debug = false; allowed_hosts = allowed_hosts };
      cors_allowed_origins = origins;
      cors_allow_credentials = credentials;
      sentry_dsn = sentry_dsn;
      secure_ssl_redirect = true;
    })
