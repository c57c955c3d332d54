-- ===== src/Authentication/Races.antt =====
-- The two parts of a request with a backup code, and the view when nothing comes in between.
use django_saas_kit.Orm.Queries.{filter-save_self, filter_pass}
use django_saas_kit.Action.{invalid_code}
use django_saas_kit.Base.{
  sym, arith, str_eq, ℕ, true, false, Option, none, some, List, [], ◌∷◌, ◌||◌, ◌==◌, ◌≡◌, refl,
  Bool-cases, inl, inr,
}
use django_saas_kit.Orm.{Orm, ok}
use django_saas_kit.Cache.{Cache}
use django_saas_kit.Models.{User, UserTotp}
use django_saas_kit.Http.{failure, reply}
use django_saas_kit.Text.{strip, is_blank}
use django_saas_kit.Rbac.Service.{is_in}
use django_saas_kit.Rbac.Views.{with_user_pk}
use django_saas_kit.Users.Gdpr.{totp_of}
use django_saas_kit.Authentication.Tokens.{Pyotp, Jwt, Site, for_user}
use django_saas_kit.Authentication.TwoFactor.{
  use_backup_code, totp_obj, session_cache_key, normal_code, without_code, set_codes, complete_view,
  complete_session, complete_user, complete_totp,
}
use django_saas_kit.Authentication.Interleaving.{
  load_user, load_totp, load_session, Request, loaded, answered, load, settle, advance, answer_with,
}

module _ ⦃orm : Orm⦄ ⦃cache : Cache ℕ⦄ (pyotp : Pyotp) (jwt : Jwt) where
  -- A request with a session of the user, who has an enabled second factor, at a site.
  pub record Ready (r : Request) (user : User) (t : UserTotp) (s : Site) : Type 0 where
    pub key_given : is_blank (strip r.session_key) ≡ false
    pub code_given : is_blank (strip r.code) ≡ false
    pub session :
        cache.get r.now (session_cache_key (strip r.session_key)) s.sessions ≡ some user.pk
    pub not_zero : (user.pk == 0) ≡ false
    pub known : orm.filter (with_user_pk user.pk) s.db.users ≡ user ∷ []
    pub protected : orm.filter (totp_of user.pk) s.db.totps ≡ t ∷ []
    pub enabled : t.is_enabled ≡ true

  -- The code is not one of the second factor, and is one of the backup codes of the row.
  abbrev pub WithBackupCode : Request → UserTotp → Type 0
  WithBackupCode r t =
      (pyotp.verify r.now t.secret (strip r.code) ≡ false)
      × (is_in (normal_code (strip r.code)) t.backup_codes ≡ true)

  -- The site after the second part of a request with a backup code, the row having been `t` when it
  -- was read.
  abbrev pub used : Request → User → UserTotp → Site → Site
  used r user t s = record {
    db = record s.db {
      totps =
          orm.save (totp_of t.user)
            (set_codes (without_code (normal_code (strip r.code)) t.backup_codes)) s.db.totps;
      tokens = orm.create (record { user = some user.pk; is_blacklisted = false }) s.db.tokens;
    };
    sessions = cache.delete (session_cache_key (strip r.session_key)) s.sessions;
  }

  pub load_lem :
      (r : Request) (user : User) (t : UserTotp) (s : Site)
      → Ready r user t s
      → load pyotp jwt r s ≡ (loaded user t, s)
  unfolding load
  load_lem r user t s ready =
      rw
        (
          ready.key_given, ready.code_given, ready.session, ready.not_zero, ready.known,
          ready.protected, ready.enabled,
        )
        refl

  pub settle_lem :
      (r : Request) (user : User) (t : UserTotp) (s : Site)
      → WithBackupCode r t
      → settle pyotp jwt r user t s
        ≡ (answered (ok (reply 200 (jwt.sign r.serial user))), used r user t s)
  unfolding settle use_backup_code for_user
  settle_lem r user t s (other, listed) = rw (other, listed) refl

  pub settle_refuses :
      (r : Request) (user : User) (t : UserTotp) (s : Site)
      → pyotp.verify r.now t.secret (strip r.code) ≡ false
      → is_in (normal_code (strip r.code)) t.backup_codes ≡ false
      → settle pyotp jwt r user t s ≡ (answered (ok (failure 400 invalid_code)), s)
  unfolding settle use_backup_code
  settle_refuses r user t s other unlisted = rw (other, unlisted) refl

  -- After a request with a backup code, another one finds its own session, and the row with the list
  -- that the first one has written.
  pub used-Ready :
      (r next : Request) (user : User) (t row : UserTotp) (s : Site)
      → t.user ≡ row.user
      → Ready next user row s
      → str_eq
          (session_cache_key (strip r.session_key))
          (session_cache_key (strip next.session_key))
        ≡ false
      → Ready next user
          (set_codes (without_code (normal_code (strip r.code)) t.backup_codes) row)
          (used r user t s)
  used-Ready r next user t row s owner ready apart =
      let owned = filter_pass (totp_of user.pk) s.db.totps [] row ready.protected in
      let of_user : t.user ≡ user.pk = ground arith in
      let rows : orm.filter (totp_of t.user) s.db.totps ≡ row ∷ [] = simp of_user ready.protected in
      record {
        key_given = ready.key_given;
        code_given = ready.code_given;
        session = rw (cache.get-delete, apart) ready.session;
        not_zero = ready.not_zero;
        known = ready.known;
        protected =
            rw
              (
                sym of_user,
                filter-save_self (totp_of t.user)
                    (set_codes (without_code (normal_code (strip r.code)) t.backup_codes))
                    (λ other. refl) s.db.totps,
                rows,
              )
              refl;
        enabled = ready.enabled;
      }

  totp_alone :
      (r : Request) (user : User) (found : Option UserTotp) (s : Site)
      → let (phase, s1) = load_totp pyotp jwt (strip r.session_key) user found s in
        advance pyotp jwt r phase s1
        ≡ answer_with pyotp jwt (
            complete_totp pyotp jwt r.now r.serial
              (strip r.session_key)
              (strip r.code)
              user
              found
              s)
  unfolding load_totp advance settle complete_totp
  totp_alone r user none s = refl
  totp_alone r user (some t) s = elim (Bool-cases t.is_enabled) [
    | inl on ↦ rw on refl
    | inr off ↦ rw off refl
  ]

  user_alone :
      (r : Request) (users : List User) (s : Site)
      → let (phase, s1) = load_user pyotp jwt (strip r.session_key) users s in
        advance pyotp jwt r phase s1
        ≡ answer_with pyotp jwt
            (complete_user pyotp jwt r.now r.serial (strip r.session_key) (strip r.code) users s)
  unfolding load_user advance complete_user
  user_alone r [] s = refl
  user_alone r (user ∷ []) s = totp_alone r user (totp_obj user s.db) s
  user_alone r (u ∷ u' ∷ l) s = refl

  session_alone :
      (r : Request) (found : Option ℕ) (s : Site)
      → let (phase, s1) = load_session pyotp jwt (strip r.session_key) found s in
        advance pyotp jwt r phase s1
        ≡ answer_with pyotp jwt
            (complete_session pyotp jwt r.now r.serial (strip r.session_key) (strip r.code) found s)
  unfolding load_session advance complete_session
  session_alone r none s = refl
  session_alone r (some pk) s = elim (Bool-cases (pk == 0)) [
    | inl zero_key ↦ rw zero_key refl
    | inr other ↦ rw other (user_alone r (orm.filter (with_user_pk pk) s.db.users) s)
  ]

  -- A request that nothing interrupts answers as the view, and leaves the site as the view does.
  pub undisturbed :
      (r : Request) (s : Site)
      → let (phase, s1) = load pyotp jwt r s in
        advance pyotp jwt r phase s1
        ≡ answer_with pyotp jwt (complete_view pyotp jwt r.now r.serial r.session_key r.code s)
  unfolding load advance complete_view
  undisturbed r s = elim (Bool-cases (is_blank (strip r.session_key) || is_blank (strip r.code))) [
    | inl blank ↦ rw blank refl
    | inr given ↦
        rw given
          (session_alone r (cache.get r.now (session_cache_key (strip r.session_key)) s.sessions) s)
  ]
