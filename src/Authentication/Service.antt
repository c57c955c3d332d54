-- ===== src/Authentication/Service.antt =====
-- apps/authentication/views.py: registration, and the token view with its first factor.
use django_saas_kit.Audit.{log}
use django_saas_kit.Models.{AuditAction, Db, User}
use django_saas_kit.Http.{failure, reply, Reply, Request}
use django_saas_kit.Base.{suc, if◌then◌else◌, Option, ℕ, String, none, some, [], ◌∷◌}
use django_saas_kit.Orm.{ok, err, Result, Orm}
use django_saas_kit.Cache.{Cache}
use django_saas_kit.Authentication.Tokens.{Jwt, TokenPair, for_user, View, on_db}
use django_saas_kit.Authentication.TwoFactor.{session_cache_key, totp_obj, is_on}
use django_saas_kit.Action.{
  Action, conflict, after, validation, Error, ErrorClass, authentication_failed,
}
use django_saas_kit.Http.{answer}

-- What the token view answers: a pair, or the key of a session.
pub data LoginReply : Type 0 where
  issued : TokenPair → LoginReply
  two_fa_required : (session_key : String) → LoginReply

-- the timeout of a session, in seconds
abbrev pub session_ttl : ℕ
session_ttl = 300

abbrev pub register_status : ErrorClass → Option ℕ
register_status validation = some 400
register_status conflict = some 409
register_status _ = none

module _ ⦃orm : Orm⦄ where
  abbrev log_registered : Request → Result Error (Reply User) × Db → Result Error (Reply User) × Db
  log_registered request (ok (reply status user), db) =
      after
        (log AuditAction.user_registered (some request) none none "User" (some user.pk)
          (("username", user.username) ∷ []) db)
        (λ _ s. (ok (reply status user), s))
  log_registered request (ok (failure status e), db) = (ok (failure status e), db)
  log_registered request (err e, db) = (err e, db)

  -- `RegisterView.post`
  unfoldable pub register_view : Action User → Request → Action (Reply User)
  unfolding answer
  register_view create request db =
      log_registered request (answer register_status (reply 201) (create db))

module _ ⦃orm : Orm⦄ ⦃cache : Cache ℕ⦄ (jwt : Jwt) where
  -- after the two pairs were made: the second factor, if the user has one
  abbrev open_session : ℕ → (key : String) → User → TokenPair → View (Reply LoginReply)
  open_session now key user pair s =
      if is_on (totp_obj user s.db)
      then (
        ok (reply 200 (two_fa_required key)),
        record s {
          sessions = cache.set now (session_cache_key key) user.pk session_ttl s.sessions;
        },
      )
      else (ok (reply 200 (issued pair)), s)

  -- The pair of the response is that of `super().post`; the second validation makes another.
  unfoldable pub login_user :
      ℕ → (serial : ℕ) → (key : String) → Option User → View (Reply LoginReply)
  login_user now serial key none s = (err authentication_failed, s)
  login_user now serial key (some user) s = after (on_db (for_user jwt serial user) s) (λ pair s.
      after (on_db (for_user jwt (suc serial) user) s) (λ _. open_session now key user pair))

  -- `ThrottledTokenObtainPairView.post`
  unfoldable pub login_view :
      ℕ → (serial : ℕ) → (key username password : String) → View (Reply LoginReply)
  unfolding login_user
  login_view now serial key username password s =
      login_user now serial key (jwt.authenticate username password (orm.all s.db.users)) s
