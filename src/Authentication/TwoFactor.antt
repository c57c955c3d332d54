-- ===== src/Authentication/TwoFactor.antt =====
-- apps/authentication/two_factor_views.py and `UserTOTP`: the setup of a second factor, and its use.
-- A user has one row, or none; the random secret and backup codes are arguments.
use django_saas_kit.Rbac.Views.{with_user_pk}
use django_saas_kit.Rbac.Service.{is_in}
use django_saas_kit.Orm.Queries.{first}
use django_saas_kit.Http.{reply, failure, Reply}
use django_saas_kit.Models.{Db, UserTotp, User}
use django_saas_kit.Text.{is_blank, strip, upper, append}
use django_saas_kit.Base.{
  ◌||◌, ◌==◌, str_eq, if◌then◌else◌, not, List, false, select, Bool, true, ℕ, String, Option, none,
  some, [], ◌∷◌,
}
use django_saas_kit.Orm.{err, ok, Orm}
use django_saas_kit.Cache.{Cache}
use django_saas_kit.Authentication.Tokens.{Pyotp, Jwt, TokenPair, for_user, Site, View, on_db}
use django_saas_kit.Action.{
  after, ◌>>◌, raise, gets, ◌>>=◌, pure, modify, Action, code_required, two_factor_enabled,
  setup_not_initiated, invalid_code, two_factor_not_enabled, session_and_code_required,
  invalid_session, user_not_found, multiple_objects_returned,
}
use django_saas_kit.Users.Gdpr.{totp_of}

-- What the setup view shows.
pub record Setup : Type 0 where
  pub secret : String
  pub provisioning_uri : String
  pub qr_svg : String

abbrev pub new_totp : User → (secret : String) → (codes : List String) → UserTotp
new_totp user secret codes = record {
  user = user.pk;
  secret = secret;
  is_enabled = false;
  backup_codes = codes;
}

abbrev pub set_secret : String → UserTotp → UserTotp
set_secret secret t = record t { secret = secret; is_enabled = false }

abbrev pub set_enabled : UserTotp → UserTotp
set_enabled t = record t { is_enabled = true }

-- `[c for c in self.backup_codes if c != code]`
abbrev pub without_code : String → List String → List String
without_code code codes = select (λ c. not (str_eq c code)) codes

-- `self.save(update_fields=["backup_codes", ...])`, which writes the list of the instance
abbrev pub set_codes : List String → UserTotp → UserTotp
set_codes codes t = record t { backup_codes = codes }

-- `code.strip().upper()`
unfoldable pub normal_code : String → String
normal_code code = upper (strip code)

-- `totp_obj and totp_obj.is_enabled`
abbrev pub is_on : Option UserTotp → Bool
is_on none = false
is_on (some t) = t.is_enabled

module _ ⦃orm : Orm⦄ where
  -- `getattr(user, "totp", None)`
  abbrev pub totp_obj : User → Db → Option UserTotp
  totp_obj user db = first (totp_of user.pk) db.totps

  abbrev pub save_totp : UserTotp → (UserTotp → UserTotp) → Action Unit
  save_totp t f = modify (λ db. record db { totps = orm.save (totp_of t.user) f db.totps })

  -- `UserTOTP.use_backup_code`
  unfoldable pub use_backup_code : String → UserTotp → Action Bool
  use_backup_code code t =
      if is_in (normal_code code) t.backup_codes
      then (save_totp t (set_codes (without_code (normal_code code) t.backup_codes)) >> pure true)
      else pure false

  -- `totp.verify(code, valid_window=1)`, and else the backup codes
  unfoldable pub check_code : Pyotp → ℕ → String → UserTotp → Action Bool
  unfolding use_backup_code
  check_code pyotp now code t =
      if pyotp.verify now t.secret code then pure true else use_backup_code code t

  -- `update_or_create` on the rows that its lookup has found
  unfoldable pub upsert_totp : User → String → List String → List UserTotp → Action Unit
  upsert_totp user secret codes [] =
      modify (λ db. record db { totps = orm.create (new_totp user secret codes) db.totps })
  upsert_totp user secret codes (t ∷ []) =
      modify (λ db. record db { totps = orm.save (totp_of user.pk) (set_secret secret) db.totps })
  upsert_totp user secret codes (t ∷ t' ∷ l) = raise multiple_objects_returned

  -- `TwoFactorSetupView.get`
  unfoldable pub setup_view : Pyotp → String → List String → User → Action (Reply Setup)
  unfolding upsert_totp
  setup_view pyotp secret codes user = do
    enabled ← gets (λ db. is_on (totp_obj user db))
    if enabled then pure (failure 400 two_factor_enabled) else (do
      found ← gets (λ db. orm.filter (totp_of user.pk) db.totps)
      upsert_totp user secret codes found
      pure (
          reply 200 (record {
            secret = secret;
            provisioning_uri = pyotp.provisioning_uri secret user.email;
            qr_svg = pyotp.make_qr_svg (pyotp.provisioning_uri secret user.email);
          })))

  -- `TwoFactorVerifyEnableView.post`, from the lookup on
  unfoldable pub enable_found : Pyotp → ℕ → String → Option UserTotp → Action (Reply (List String))
  enable_found pyotp now code none = pure (failure 400 setup_not_initiated)
  enable_found pyotp now code (some t) =
      if t.is_enabled
      then pure (failure 400 two_factor_enabled)
      else if not (pyotp.verify now t.secret code)
      then pure (failure 400 invalid_code)
      else (save_totp t set_enabled >> pure (reply 200 t.backup_codes))

  unfoldable pub enable_view : Pyotp → ℕ → String → User → Action (Reply (List String))
  unfolding enable_found
  enable_view pyotp now raw_code user =
      if is_blank (strip raw_code)
      then pure (failure 400 code_required)
      else (gets (totp_obj user) >>= enable_found pyotp now (strip raw_code))

  -- `TwoFactorDisableView.post`, from the lookup on
  unfoldable pub disable_found : Pyotp → ℕ → String → Option UserTotp → Action (Reply Unit)
  unfolding check_code
  disable_found pyotp now code none = pure (failure 400 two_factor_not_enabled)
  disable_found pyotp now code (some t) =
      if not t.is_enabled then pure (failure 400 two_factor_not_enabled) else (do
        valid ← check_code pyotp now code t
        if not valid then pure (failure 400 invalid_code) else (do
          modify (λ db. record db { totps = orm.delete (totp_of t.user) db.totps })
          pure (reply 200 tt)))

  unfoldable pub disable_view : Pyotp → ℕ → String → User → Action (Reply Unit)
  unfolding disable_found
  disable_view pyotp now raw_code user =
      if is_blank (strip raw_code)
      then pure (failure 400 code_required)
      else (gets (totp_obj user) >>= disable_found pyotp now (strip raw_code))

-- The key of a session in the cache, `_CACHE_PREFIX` and the session key.
unfoldable pub session_cache_key : String → String
unfolding append
session_cache_key key = append "2fa_pre_auth:" key

module _ ⦃orm : Orm⦄ ⦃cache : Cache ℕ⦄ (pyotp : Pyotp) (jwt : Jwt) where
  abbrev pub end_session : String → Site → Site
  end_session key s = record s { sessions = cache.delete (session_cache_key key) s.sessions }

  -- after a code was checked: the session ends, and the user gets its tokens
  unfoldable pub finish : (serial : ℕ) → String → User → Bool → View (Reply TokenPair)
  finish serial key user false s = (ok (failure 400 invalid_code), s)
  finish serial key user true s =
      after (on_db (for_user jwt serial user) (end_session key s))
        (λ pair s. (ok (reply 200 pair), s))

  unfoldable pub complete_totp :
      ℕ → (serial : ℕ) → (key code : String) → User → Option UserTotp → View (Reply TokenPair)
  unfolding finish check_code
  complete_totp now serial key code user none s =
      (ok (failure 400 two_factor_not_enabled), end_session key s)
  complete_totp now serial key code user (some t) s =
      if not t.is_enabled
      then (ok (failure 400 two_factor_not_enabled), end_session key s)
      else after (on_db (check_code pyotp now code t) s) (finish serial key user)

  unfoldable pub complete_user :
      ℕ → (serial : ℕ) → (key code : String) → List User → View (Reply TokenPair)
  unfolding complete_totp
  complete_user now serial key code [] s = (ok (failure 400 user_not_found), s)
  complete_user now serial key code (user ∷ []) s =
      complete_totp now serial key code user (totp_obj user s.db) s
  complete_user now serial key code (u ∷ u' ∷ l) s = (err multiple_objects_returned, s)

  -- `if not user_pk`, which a key 0 also meets
  unfoldable pub complete_session :
      ℕ → (serial : ℕ) → (key code : String) → Option ℕ → View (Reply TokenPair)
  unfolding complete_user
  complete_session now serial key code none s = (ok (failure 400 invalid_session), s)
  complete_session now serial key code (some pk) s =
      if pk == 0
      then (ok (failure 400 invalid_session), s)
      else complete_user now serial key code (orm.filter (with_user_pk pk) s.db.users) s

  -- `TwoFactorCompleteView.post`
  unfoldable pub complete_view :
      ℕ → (serial : ℕ) → (session_key code : String) → View (Reply TokenPair)
  unfolding complete_session
  complete_view now serial raw_key raw_code s =
      if is_blank (strip raw_key) || is_blank (strip raw_code)
      then (ok (failure 400 session_and_code_required), s)
      else complete_session now serial (strip raw_key) (strip raw_code)
          (cache.get now (session_cache_key (strip raw_key)) s.sessions) s
