-- ===== src/Authentication/Login.antt =====
-- Logins with two factors: no tokens without the second, and with it the tokens once.
use django_saas_kit.Rbac.Service.{is_in}
use django_saas_kit.Text.{is_blank, strip}
use django_saas_kit.Rbac.Views.{with_user_pk}
use django_saas_kit.Action.{invalid_session, after, Error}
use django_saas_kit.Models.{Db, UserTotp, User}
use django_saas_kit.Base.{
  ltb, eq_iff, str_eq, ◌+◌, ◌<◌, ◌||◌, ◌==◌, Bool-cases, Bool, ◌⊎◌, Option, List, String, ℕ, refl,
  ◌≡◌, none, some, [], ◌∷◌, arith, true, false, inl, inr,
}
use django_saas_kit.Orm.{Result, Orm, ok, err}
use django_saas_kit.Cache.{Cache}
use django_saas_kit.Http.{reply, failure}
use django_saas_kit.Authentication.Tokens.{Pyotp, Jwt, TokenPair, for_user, Site, on_db}
use django_saas_kit.Authentication.TwoFactor.{
  complete_view, complete_session, complete_user, complete_totp, finish, check_code,
  use_backup_code, normal_code, session_cache_key, totp_obj,
}
use django_saas_kit.Authentication.Service.{login_view, login_user, two_fa_required}

module _ ⦃orm : Orm⦄ ⦃cache : Cache ℕ⦄ (pyotp : Pyotp) (jwt : Jwt) where
  -- What stands behind a pair of tokens: the user, an enabled second factor, and a code for it.
  abbrev pub Proved : ℕ → String → List User → User → UserTotp → Db → Type 0
  Proved now code users user t db =
      (users ≡ user ∷ [])
      × (totp_obj user db ≡ some t)
      × (t.is_enabled ≡ true)
      × ((pyotp.verify now t.secret code ≡ true) ⊎ (is_in (normal_code code) t.backup_codes ≡ true))

  module _ (now serial : ℕ) (key code : String) (pair : TokenPair) where
    finish_pair :
        (user : User) (valid : Bool) (status : ℕ) (s : Site)
        → (finish pyotp jwt serial key user valid s).0 ≡ ok (reply status pair)
        → valid ≡ true
    unfolding finish
    finish_pair user true status s h = refl
    finish_pair user false status s h = absurd (cc h)

    check_cases :
        (t : UserTotp) (db : Db)
        → (check_code pyotp now code t db).0 ≡ ok true
        → (pyotp.verify now t.secret code ≡ true) ⊎ (is_in (normal_code code) t.backup_codes ≡ true)
    unfolding check_code use_backup_code
    check_cases t db h = elim (Bool-cases (pyotp.verify now t.secret code)) [
      | inl valid ↦ inl valid
      | inr other ↦ elim (Bool-cases (is_in (normal_code code) t.backup_codes)) [
        | inl listed ↦ inr listed
        | inr unknown ↦ let k = rw (other, unknown) at h in absurd (cc k)
      ]
    ]

    after_check :
        (t : UserTotp) (user : User) (status : ℕ) (s : Site) (m : Result Error Bool × Site)
        → (after m (finish pyotp jwt serial key user)).0 ≡ ok (reply status pair)
        → m.0 ≡ ok true
    after_check t user status s (ok valid, s') h =
        let e = finish_pair user valid status s' h in rw e refl
    after_check t user status s (err e, s') h = absurd (cc h)

    complete_totp_pair :
        (user : User) (t : Option UserTotp) (status : ℕ) (s : Site)
        → (complete_totp pyotp jwt now serial key code user t s).0 ≡ ok (reply status pair)
        → (t' : UserTotp) × (t ≡ some t')
          × (t'.is_enabled ≡ true)
          × ((pyotp.verify now t'.secret code ≡ true)
              ⊎ (is_in (normal_code code) t'.backup_codes ≡ true))
    unfolding complete_totp
    complete_totp_pair user none status s h = absurd (cc h)
    complete_totp_pair user (some t) status s h = elim (Bool-cases t.is_enabled) [
      | inr off ↦ let k = rw off at h in absurd (cc k)
      | inl on ↦
          let k = rw on at h in
          (
            t,
            refl,
            on,
            check_cases t s.db
                (after_check t user status s (on_db (check_code pyotp now code t) s) k),
          )
    ]

    complete_user_pair :
        (users : List User) (status : ℕ) (s : Site)
        → (complete_user pyotp jwt now serial key code users s).0 ≡ ok (reply status pair)
        → (user : User) × (t : UserTotp) × Proved now code users user t s.db
    unfolding complete_user
    complete_user_pair [] status s h = absurd (cc h)
    complete_user_pair (user ∷ []) status s h =
        let (t, e, on, code_ok) = complete_totp_pair user (totp_obj user s.db) status s h in
        (user, t, (refl, e, on, code_ok))
    complete_user_pair (u ∷ u' ∷ l) status s h = absurd (cc h)

    complete_session_pair :
        (found : Option ℕ) (status : ℕ) (s : Site)
        → (complete_session pyotp jwt now serial key code found s).0 ≡ ok (reply status pair)
        → (pk : ℕ) × (user : User) × (t : UserTotp) × (found ≡ some pk)
          × Proved now code (orm.filter (with_user_pk pk) s.db.users) user t s.db
    unfolding complete_session
    complete_session_pair none status s h = absurd (cc h)
    complete_session_pair (some pk) status s h = elim (Bool-cases (pk == 0)) [
      | inl zero_key ↦ let k = rw zero_key at h in absurd (cc k)
      | inr other ↦
          let k = rw other at h in
          let (user, t, p) =
            complete_user_pair (orm.filter (with_user_pk pk) s.db.users) status s k in
          (pk, user, t, refl, p)
    ]

  -- The second step of a login answers with a pair of tokens only for a key that the cache keeps
  -- for a user, and only where the user has an enabled second factor for which the code is valid
  -- at the time or is one of the unused backup codes.
  pub complete_view-needs_code :
      (now serial : ℕ) (raw_key raw_code : String) (pair : TokenPair) (status : ℕ) (s : Site)
      → (complete_view pyotp jwt now serial raw_key raw_code s).0 ≡ ok (reply status pair)
      → (pk : ℕ) × (user : User) × (t : UserTotp) × (cache.get now
            (session_cache_key (strip raw_key))
            s.sessions
          ≡ some pk)
        × Proved now (strip raw_code) (orm.filter (with_user_pk pk) s.db.users) user t s.db
  unfolding complete_view
  complete_view-needs_code now serial raw_key raw_code pair status s h =
      elim (Bool-cases (is_blank (strip raw_key) || is_blank (strip raw_code))) [
        | inl blank ↦ let k = rw blank at h in absurd (cc k)
        | inr given ↦
            let k = rw given at h in
            complete_session_pair now serial (strip raw_key) (strip raw_code) pair
              (cache.get now (session_cache_key (strip raw_key)) s.sessions) status s k
      ]

  -- A user with an enabled second factor, and with a key of its own that is not 0, who gives its
  -- password gets the key of a session, one that is not blank and that stripping leaves alone, and
  -- no tokens; before five minutes have passed, and whatever else is cached, the key and a valid
  -- code get the tokens of the user; after that the key is refused at every time, with any code
  -- that is not blank, and such a call changes nothing.
  pub login_completes :
      (now serial : ℕ) (key username password : String) (user : User) (t : UserTotp) (s : Site)
      → jwt.authenticate username password (orm.all s.db.users) ≡ some user
      → orm.filter (with_user_pk user.pk) s.db.users ≡ user ∷ []
      → (user.pk == 0) ≡ false
      → totp_obj user s.db ≡ some t
      → t.is_enabled ≡ true
      → strip key ≡ key
      → is_blank key ≡ false
      → (later next : ℕ) (code : String) → later < now + 300
      → is_blank (strip code) ≡ false
      → pyotp.verify later t.secret (strip code) ≡ true
      → (again third : ℕ) (other : String) → is_blank (strip other) ≡ false
      → let (r, s1) = login_view jwt now serial key username password s in
        let (r1, s2) = complete_view pyotp jwt later next key code s1 in
        (r ≡ ok (reply 200 (two_fa_required key)))
        × (r1 ≡ ok (reply 200 (jwt.sign next user)))
        × (complete_view pyotp jwt again third key other s2
            ≡ (ok (failure 400 invalid_session), s2))
  unfolding login_view login_user complete_view complete_session complete_user complete_totp finish
      check_code for_user
  login_completes now serial key username password user t s knows stored has_key has on trimmed
        given later next code soon coded valid again third other entered =
      let same : str_eq (session_cache_key key) (session_cache_key key) ≡ true =
        (eq_iff (session_cache_key key) (session_cache_key key)).1 refl in
      let ended : str_eq (session_cache_key (strip key)) (session_cache_key key) ≡ true =
        rw trimmed same in
      let kept : ltb later (now + 300) ≡ true = ground arith in
      rw
        (
          knows, login_user, has, on, trimmed, given, coded, cache.get-set, same, kept,
          complete_session, has_key, stored, complete_user, has, complete_totp, on, valid,
        )
        (refl, refl, rw (entered, cache.get-delete, ended, complete_session) refl)
