-- ===== src/Authentication/Interleaving.antt =====
-- Two requests to `TwoFactorCompleteView.post` at once. The view reads the session, the user and its
-- second factor, and then checks the code and writes; no transaction and no lock holds the two parts
-- together, so that another request can come in between.
use django_saas_kit.Base.{
  ℕ, String, Bool, true, false, not, Option, none, some, List, [], ◌∷◌, ◌||◌, ◌==◌, if◌then◌else◌,
}
use django_saas_kit.Orm.{Orm, Result, ok, err}
use django_saas_kit.Cache.{Cache}
use django_saas_kit.Models.{User, UserTotp}
use django_saas_kit.Http.{Reply, failure}
use django_saas_kit.Action.{
  Error, after, session_and_code_required, invalid_session, user_not_found, two_factor_not_enabled,
  multiple_objects_returned,
}
use django_saas_kit.Text.{strip, is_blank}
use django_saas_kit.Rbac.Views.{with_user_pk}
use django_saas_kit.Authentication.Tokens.{Pyotp, Jwt, Site, TokenPair, on_db}
use django_saas_kit.Authentication.TwoFactor.{
  check_code, finish, end_session, totp_obj, session_cache_key,
}

-- A request, with its time and the number of the tokens that it may draw.
pub record Request : Type 0 where
  pub now : ℕ
  pub serial : ℕ
  pub session_key : String
  pub code : String

-- How far a request has come: the instances that it has loaded are its own copies.
pub data Phase : Type 0 where
  arrived : Phase
  loaded : User → UserTotp → Phase
  answered : Result Error (Reply TokenPair) → Phase

module _ ⦃orm : Orm⦄ ⦃cache : Cache ℕ⦄ (pyotp : Pyotp) (jwt : Jwt) where
  -- The first part, up to the row of the second factor.
  unfoldable pub load_totp : (key : String) → User → Option UserTotp → Site → Phase × Site
  load_totp key user none s =
      (answered (ok (failure 400 two_factor_not_enabled)), end_session pyotp jwt key s)
  load_totp key user (some t) s =
      if not t.is_enabled
      then (answered (ok (failure 400 two_factor_not_enabled)), end_session pyotp jwt key s)
      else (loaded user t, s)

  unfoldable pub load_user : (key : String) → List User → Site → Phase × Site
  unfolding load_totp
  load_user key [] s = (answered (ok (failure 400 user_not_found)), s)
  load_user key (user ∷ []) s = load_totp key user (totp_obj user s.db) s
  load_user key (u ∷ u' ∷ l) s = (answered (err multiple_objects_returned), s)

  unfoldable pub load_session : (key : String) → Option ℕ → Site → Phase × Site
  unfolding load_user
  load_session key none s = (answered (ok (failure 400 invalid_session)), s)
  load_session key (some pk) s =
      if pk == 0
      then (answered (ok (failure 400 invalid_session)), s)
      else load_user key (orm.filter (with_user_pk pk) s.db.users) s

  unfoldable pub load : Request → Site → Phase × Site
  unfolding load_session
  load r s =
      if is_blank (strip r.session_key) || is_blank (strip r.code)
      then (answered (ok (failure 400 session_and_code_required)), s)
      else load_session (strip r.session_key)
          (cache.get r.now (session_cache_key (strip r.session_key)) s.sessions) s

  abbrev pub answer_with : Result Error (Reply TokenPair) × Site → Phase × Site
  answer_with (r, s) = (answered r, s)

  -- The second part, on the copies of the first one.
  unfoldable pub settle : Request → User → UserTotp → Site → Phase × Site
  unfolding check_code finish
  settle r user t s = answer_with (
      after (on_db (check_code pyotp r.now (strip r.code) t) s)
        (finish pyotp jwt r.serial (strip r.session_key) user))

  -- A request goes on with its next part.
  unfoldable pub advance : Request → Phase → Site → Phase × Site
  advance r arrived s = load r s
  advance r (loaded user t) s = settle r user t s
  advance r (answered result) s = (answered result, s)

  -- Two requests on one site.
  pub record Race : Type 0 where
    pub site : Site
    pub first : Phase
    pub second : Phase

  -- The first request goes on, or the second one.
  unfoldable pub step : Request → Request → (first_goes : Bool) → Race → Race
  step r1 r2 true race =
      let (phase, site) = advance r1 race.first race.site in
      record race { site = site; first = phase }
  step r1 r2 false race =
      let (phase, site) = advance r2 race.second race.site in
      record race { site = site; second = phase }

  unfoldable pub run_schedule : Request → Request → List Bool → Race → Race
  run_schedule r1 r2 [] race = race
  run_schedule r1 r2 (turn ∷ turns) race = run_schedule r1 r2 turns (step r1 r2 turn race)

  abbrev pub both_arrived : Site → Race
  both_arrived s = record { site = s; first = arrived; second = arrived }
