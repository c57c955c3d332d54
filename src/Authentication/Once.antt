-- ===== src/Authentication/Once.antt =====
-- A backup code over sequences of calls of the views of the second factor.
use django_saas_kit.Rbac.Views.{with_user_pk}
use django_saas_kit.Text.{strip, is_blank}
use django_saas_kit.Users.Gdpr.{totp_of}
use django_saas_kit.Rbac.Service.{is_in}
use django_saas_kit.Base.{
  ◌==◌, List-cases, ◌||◌, Bool-cases, Bool, Option, List, String, ℕ, refl, ◌≡◌, none, some, [], ◌∷◌,
  true, false, inl, inr,
}
use django_saas_kit.Orm.{Orm, ok}
use django_saas_kit.Cache.{Cache}
use django_saas_kit.Models.{Db, UserTotp, User}
use django_saas_kit.Authentication.Tokens.{Pyotp, Jwt, for_user, Site, on_db}
use django_saas_kit.Authentication.TwoFactor.{
  set_codes, without_code, session_cache_key, complete_user, finish, is_on, totp_obj, complete_totp,
  complete_session, set_secret, set_enabled, normal_code, enable_found, upsert_totp, disable_found,
  check_code, use_backup_code, setup_view, enable_view, disable_view, complete_view,
}
use django_saas_kit.Authentication.Service.{login_user, login_view}
use django_saas_kit.Authentication.Codes.{
  lists, IsUnlisted, first-IsUnlisted, delete-IsSpent, without-IsSpent, save-IsSpent,
  create-IsSpent, IsSpent,
}

-- A call of a view; the arguments of `setup` are also what it draws at random.
pub data Op : Type 0 where
  setup : (secret : String) (codes : List String) → User → Op
  enable : (now : ℕ) (code : String) → User → Op
  disable : (now : ℕ) (code : String) → User → Op
  login : (now serial : ℕ) (key username password : String) → Op
  complete : (now serial : ℕ) (key code : String) → Op

-- No setup draws the code again.
abbrev pub Avoids : String → Op → Type 0
Avoids code (setup secret codes user) = is_in code codes ≡ false
Avoids code _ = Unit

abbrev pub AllAvoid : String → List Op → Type 0
AllAvoid code [] = Unit
AllAvoid code (op ∷ ops) = Avoids code op × AllAvoid code ops

module _ ⦃orm : Orm⦄ ⦃cache : Cache ℕ⦄ (pyotp : Pyotp) (jwt : Jwt) where
  unfoldable pub run : Op → Site → Site
  run (setup secret codes user) s = (on_db (setup_view pyotp secret codes user) s).1
  run (enable now code user) s = (on_db (enable_view pyotp now code user) s).1
  run (disable now code user) s = (on_db (disable_view pyotp now code user) s).1
  run (login now serial key username password) s =
      (login_view jwt now serial key username password s).1
  run (complete now serial key code) s = (complete_view pyotp jwt now serial key code s).1

  unfoldable pub run_all : List Op → Site → Site
  unfolding run
  run_all [] s = s
  run_all (op ∷ ops) s = run_all ops (run op s)

module _ ⦃orm : Orm⦄ (code : String) (pk : ℕ) (pyotp : Pyotp) where
  -- A check of a code answers, and keeps a spent code spent.
  check_code-IsSpent :
      (now : ℕ) (raw : String) (t : UserTotp) (db : Db)
      → lists code pk t ≡ false
      → IsSpent code pk db.totps
      → (v : Bool) × (db' : Db) × (check_code pyotp now raw t db ≡ (ok v, db'))
        × IsSpent code pk db'.totps
  unfolding check_code use_backup_code
  check_code-IsSpent now raw t db unlisted spent =
      elim (Bool-cases (pyotp.verify now t.secret raw)) [
        | inl valid ↦ (true, db, rw valid refl, spent)
        | inr other ↦ elim (Bool-cases (is_in (normal_code raw) t.backup_codes)) [
          | inl listed ↦
              let db' : Db = record db {
                totps =
                    orm.save (totp_of t.user)
                      (set_codes (without_code (normal_code raw) t.backup_codes)) db.totps;
              } in
              (
                true,
                db',
                rw (other, listed) refl,
                without-IsSpent code pk (normal_code raw) t db.totps unlisted spent,
              )
          | inr unknown ↦ (false, db, rw (other, unknown) refl, spent)
        ]
      ]

  setup_view-IsSpent :
      (secret : String) (codes : List String) (user : User) (db : Db)
      → is_in code codes ≡ false
      → IsSpent code pk db.totps
      → IsSpent code pk (setup_view pyotp secret codes user db).1.totps
  unfolding setup_view upsert_totp
  setup_view-IsSpent secret codes user db fresh spent =
      elim (Bool-cases (is_on (totp_obj user db))) [
        | inl on ↦ rw on spent
        | inr off ↦ elim (List-cases (orm.filter (totp_of user.pk) db.totps)) [
          | inl missing ↦
              rw (off, missing) (create-IsSpent code pk user secret codes db.totps fresh spent)
          | inr (inl (t, one)) ↦
              rw (off, one)
                (save-IsSpent code pk (totp_of user.pk) (set_secret secret) db.totps (λ t h. h)
                  spent)
          | inr (inr (t, t', l, more)) ↦ rw (off, more) spent
        ]
      ]

  enable_found-IsSpent :
      (now : ℕ) (raw : String) (found : Option UserTotp) (db : Db)
      → IsSpent code pk db.totps
      → IsSpent code pk (enable_found pyotp now raw found db).1.totps
  unfolding enable_found
  enable_found-IsSpent now raw none db spent = spent
  enable_found-IsSpent now raw (some t) db spent = elim (Bool-cases t.is_enabled) [
    | inl on ↦ rw on spent
    | inr off ↦ elim (Bool-cases (pyotp.verify now t.secret raw)) [
      | inl valid ↦
          rw (off, valid)
            (save-IsSpent code pk (totp_of t.user) set_enabled db.totps (λ t h. h) spent)
      | inr other ↦ rw (off, other) spent
    ]
  ]

  enable_view-IsSpent :
      (now : ℕ) (raw : String) (user : User) (db : Db)
      → IsSpent code pk db.totps
      → IsSpent code pk (enable_view pyotp now raw user db).1.totps
  unfolding enable_view
  enable_view-IsSpent now raw user db spent = elim (Bool-cases (is_blank (strip raw))) [
    | inl blank ↦ rw blank spent
    | inr given ↦ rw given (enable_found-IsSpent now (strip raw) (totp_obj user db) db spent)
  ]

  disable_found-IsSpent :
      (now : ℕ) (raw : String) (found : Option UserTotp) (db : Db)
      → IsUnlisted code pk found
      → IsSpent code pk db.totps
      → IsSpent code pk (disable_found pyotp now raw found db).1.totps
  unfolding disable_found
  disable_found-IsSpent now raw none db unlisted spent = spent
  disable_found-IsSpent now raw (some t) db unlisted spent = elim (Bool-cases t.is_enabled) [
    | inr off ↦ rw off spent
    | inl on ↦
        let (v, db', e, kept) = check_code-IsSpent now raw t db unlisted spent in
        elim (Bool-cases v) [
          | inl valid ↦ rw (on, e, valid) (delete-IsSpent code pk (totp_of t.user) db'.totps kept)
          | inr other ↦ rw (on, e, other) kept
        ]
  ]

  disable_view-IsSpent :
      (now : ℕ) (raw : String) (user : User) (db : Db)
      → IsSpent code pk db.totps
      → IsSpent code pk (disable_view pyotp now raw user db).1.totps
  unfolding disable_view
  disable_view-IsSpent now raw user db spent = elim (Bool-cases (is_blank (strip raw))) [
    | inl blank ↦ rw blank spent
    | inr given ↦ rw given (
        disable_found-IsSpent now (strip raw) (totp_obj user db) db
          (first-IsUnlisted code pk user.pk db.totps spent) spent)
  ]

  module _ ⦃cache : Cache ℕ⦄ (jwt : Jwt) where
    login_user-IsSpent :
        (now serial : ℕ) (key : String) (found : Option User) (s : Site)
        → IsSpent code pk s.db.totps
        → IsSpent code pk (login_user jwt now serial key found s).1.db.totps
    unfolding login_user for_user
    login_user-IsSpent now serial key none s spent = spent
    login_user-IsSpent now serial key (some user) s spent =
        elim (Bool-cases (is_on (totp_obj user s.db))) [
          | inl on ↦ rw on spent
          | inr off ↦ rw off spent
        ]

    complete_totp-IsSpent :
        (now serial : ℕ) (key raw : String) (user : User) (found : Option UserTotp) (s : Site)
        → IsUnlisted code pk found
        → IsSpent code pk s.db.totps
        → IsSpent code pk (complete_totp pyotp jwt now serial key raw user found s).1.db.totps
    unfolding complete_totp finish for_user
    complete_totp-IsSpent now serial key raw user none s unlisted spent = spent
    complete_totp-IsSpent now serial key raw user (some t) s unlisted spent =
        elim (Bool-cases t.is_enabled) [
          | inr off ↦ rw off spent
          | inl on ↦
              let (v, db', e, kept) = check_code-IsSpent now raw t s.db unlisted spent in
              elim (Bool-cases v) [
                | inl valid ↦ rw (on, e, valid) kept
                | inr other ↦ rw (on, e, other) kept
              ]
        ]

    complete_session-IsSpent :
        (now serial : ℕ) (key raw : String) (found : Option ℕ) (s : Site)
        → IsSpent code pk s.db.totps
        → IsSpent code pk (complete_session pyotp jwt now serial key raw found s).1.db.totps
    unfolding complete_session complete_user
    complete_session-IsSpent now serial key raw none s spent = spent
    complete_session-IsSpent now serial key raw (some id) s spent = elim (Bool-cases (id == 0)) [
      | inl zero_key ↦ rw zero_key spent
      | inr other ↦ elim (List-cases (orm.filter (with_user_pk id) s.db.users)) [
        | inl missing ↦ rw (other, missing) spent
        | inr (inl (user, one)) ↦
            rw (other, one)
              (complete_totp-IsSpent now serial key raw user (totp_obj user s.db) s
                (first-IsUnlisted code pk user.pk s.db.totps spent) spent)
        | inr (inr (u, u', l, more)) ↦ rw (other, more) spent
      ]
    ]

    complete_view-IsSpent :
        (now serial : ℕ) (key raw : String) (s : Site)
        → IsSpent code pk s.db.totps
        → IsSpent code pk (complete_view pyotp jwt now serial key raw s).1.db.totps
    unfolding complete_view
    complete_view-IsSpent now serial key raw s spent =
        elim (Bool-cases (is_blank (strip key) || is_blank (strip raw))) [
          | inl blank ↦ rw blank spent
          | inr given ↦ rw given (
              complete_session-IsSpent now serial (strip key) (strip raw)
                (cache.get now (session_cache_key (strip key)) s.sessions) s spent)
        ]

    run-IsSpent :
        (op : Op) (s : Site)
        → Avoids code op
        → IsSpent code pk s.db.totps
        → IsSpent code pk (run pyotp jwt op s).db.totps
    unfolding run login_view
    run-IsSpent (setup secret codes user) s fresh spent =
        setup_view-IsSpent secret codes user s.db fresh spent
    run-IsSpent (enable now raw user) s fresh spent = enable_view-IsSpent now raw user s.db spent
    run-IsSpent (disable now raw user) s fresh spent = disable_view-IsSpent now raw user s.db spent
    run-IsSpent (login now serial key name word) s fresh spent =
        login_user-IsSpent now serial key (jwt.authenticate name word (orm.all s.db.users)) s spent
    run-IsSpent (complete now serial key raw) s fresh spent =
        complete_view-IsSpent now serial key raw s spent

    pub run_all-IsSpent :
        (ops : List Op) (s : Site)
        → AllAvoid code ops
        → IsSpent code pk s.db.totps
        → IsSpent code pk (run_all pyotp jwt ops s).db.totps
    unfolding run_all
    run_all-IsSpent [] s fresh spent = spent
    run_all-IsSpent (op ∷ ops) s (fresh, rest) spent =
        run_all-IsSpent ops (run pyotp jwt op s) rest (run-IsSpent op s fresh spent)
