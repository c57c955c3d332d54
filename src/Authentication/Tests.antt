-- ===== src/Authentication/Tests.antt =====
-- Runs of the logins, the second factor and the reset of a password on concrete users.
use django_saas_kit.Authentication.Reset.{reset_once, request_view_hides}
use django_saas_kit.Invitations.Service.{with_email}
use django_saas_kit.Authentication.PasswordReset.{
  set_password, confirm_view, reset_link, reset_email, request_view,
}
use django_saas_kit.Action.{invalid_link, multiple_objects_returned, invalid_session}
use django_saas_kit.Rbac.Views.{with_user_pk}
use django_saas_kit.Authentication.Service.{two_fa_required, login_view}
use django_saas_kit.Authentication.TwoFactor.{
  disable_view, enable_view, setup_view, complete_view, session_cache_key, normal_code,
}
use django_saas_kit.Users.Service.{get_display_name}
use django_saas_kit.Models.{send_password_reset_email, User, UserTotp}
use django_saas_kit.Authentication.BackupCodes.{backup_code_once, IsNoTotp}
use django_saas_kit.Text.{lower, is_blank, upper, append, strip}
use django_saas_kit.Authentication.Once.{run, run_all, login, enable, setup, disable, Op}
use django_saas_kit.Base.{
  arith, ◌/◌, if◌then◌else◌, ◌++◌, refl, List, String, ℕ, none, some, [], ◌∷◌, ◌≡◌, ◌⊎◌, false, not,
  str_eq, select,
}
use django_saas_kit.Orm.{memory, ok, err}
use django_saas_kit.Http.{reply, failure}
use django_saas_kit.Cache.{local_memory}
use django_saas_kit.Authentication.Samples.{bob_totp, test_jwt, test_pyotp, test_tokens}
use django_saas_kit.Fixtures.{globex, request_of, bob, small_db}
use django_saas_kit.Authentication.Tokens.{for_user, Site}
use django_saas_kit.Authentication.Login.{login_completes, complete_view-needs_code, Proved}

-- Bob has a second factor; nobody has given a password yet.
abbrev fresh_site : Site
fresh_site = record { db = record small_db { totps = bob_totp ∷ [] }; sessions = λ now key. none }

login_completes_example :
    let (r, s1) = login_view test_jwt 1000 1 "k1" "bob@globex.io" "pw" fresh_site in
    let (r1, s2) = complete_view test_pyotp test_jwt 1200 2 "k1" " 123456" s1 in
    (r ≡ ok (reply 200 (two_fa_required "k1")))
    × (r1 ≡ ok (reply 200 (test_jwt.sign 2 bob)))
    × (complete_view test_pyotp test_jwt 1201 3 "k1" "AAAA1111" s2
        ≡ (ok (failure 400 invalid_session), s2))
unfolding select strip
login_completes_example =
    login_completes test_pyotp test_jwt 1000 1 "k1" "bob@globex.io" "pw" bob bob_totp fresh_site
      refl refl refl refl refl refl refl 1200 2 " 123456" (omega arith) refl refl 1201 3 "AAAA1111"
      refl

-- Bob has given his password at 1000.
abbrev waiting_site : Site
waiting_site = record {
  db = record small_db { totps = bob_totp ∷ [] };
  sessions = λ now key. if str_eq key "2fa_pre_auth:k1" then some 2 else none;
}

complete_view-needs_code_example :
    (pk : ℕ) × (user : User) × (t : UserTotp) × (waiting_site.sessions 1100
        (session_cache_key (strip "k1"))
      ≡ some pk)
    × Proved test_pyotp test_jwt 1100
        (strip " 123456")
        (select (with_user_pk pk) waiting_site.db.users)
        user
        t
        waiting_site.db
unfolding select strip complete_view session_cache_key for_user
complete_view-needs_code_example =
    complete_view-needs_code test_pyotp test_jwt 1100 5 "k1" " 123456" (test_jwt.sign 5 bob) 200
      waiting_site refl

no_totp : (code : String) → str_eq code "123456" ≡ false → IsNoTotp test_pyotp code
no_totp code other now secret = other

-- Bob uses a backup code, sets his second factor up again and gives his password once more.
abbrev after_use : List Op
after_use =
    disable 1200 "123456" bob
    ∷ setup "NEW" ("CCCC3333" ∷ []) bob
    ∷ enable 1210 "123456" bob
    ∷ login 1220 7 "k2" "bob@globex.io" "pw"
    ∷ []

backup_code_once_example : ¬ (
    (complete_view test_pyotp test_jwt 1300 9 "k2" "aaaa1111 " (
      run_all test_pyotp test_jwt after_use
        (complete_view test_pyotp test_jwt 1100 5 "k1" " AAAA1111" waiting_site).1)).0
    ≡ ok (reply 200 (test_jwt.sign 9 bob)))
unfolding select strip normal_code upper complete_view run_all run session_cache_key for_user
    setup_view enable_view disable_view login_view
backup_code_once_example =
    backup_code_once test_pyotp test_jwt 1100 5 2 "k1" " AAAA1111" (test_jwt.sign 5 bob) 200
      waiting_site (no_totp (strip " AAAA1111") refl) refl refl after_use
      (tt, (refl, (tt, (tt, tt)))) 1300 9 "k2" "aaaa1111 " (test_jwt.sign 9 bob) 200 refl
      (no_totp (strip "aaaa1111 ") refl) refl

-- Bob asks for a link at 100, and uses it at 200.
reset_once_example :
    let uid = test_tokens.urlsafe_base64_encode 2 in
    let token = test_tokens.make_token 100 bob in
    let (r, db1) =
      request_view test_tokens "http://localhost:3000/" 100 " BOB@globex.io"
        (request_of bob globex)
        small_db in
    let (r1, db2) =
      confirm_view test_tokens
        (λ password user. not (is_blank password))
        (append "hashed:")
        200
        uid
        token
        "n3w"
        db1 in
    (r ≡ ok (reply 200 tt))
    × (db1.queue
        ≡ small_db.queue
          ++ send_password_reset_email "bob@globex.io"
              (get_display_name bob)
              (reset_link test_tokens "http://localhost:3000/" uid token)
              uid
              token
              (3600 / 3600)
            ∷ [])
    × ((r1 ≡ ok (reply 200 tt))
        × (memory.filter (with_user_pk 2) db2.users
            ≡ set_password (append "hashed:" "n3w") bob ∷ [])
        × ((again : ℕ) (other : String)
            → confirm_view test_tokens
                (λ password user. not (is_blank password))
                (append "hashed:")
                again
                uid
                token
                other
                db2
              ≡ (ok (failure 400 invalid_link), db2)))
unfolding select strip lower
reset_once_example =
    reset_once test_tokens "http://localhost:3000/" (λ password user. not (is_blank password))
      (append "hashed:") 100 " BOB@globex.io" (request_of bob globex) bob small_db refl refl 200
      "n3w" (omega arith) (omega arith) refl (λ e. absurd (cc e))

request_view_hides_example :
    let found : List User =
      memory.filter (with_email (lower (strip "nobody@mail.io"))) small_db.users in
    let (r, db') =
      request_view test_tokens "http://localhost:3000/" 100 "nobody@mail.io"
        (request_of bob globex)
        small_db in
    ((found ≡ [])
      × (r ≡ ok (reply 200 tt))
      × (db'.users ≡ small_db.users)
      × (db'.queue ≡ small_db.queue))
    ⊎ ((user : User) × (found ≡ user ∷ [])
        × (r ≡ ok (reply 200 tt))
        × (db'.users ≡ small_db.users)
        × (db'.queue
            ≡ small_db.queue ++ reset_email test_tokens "http://localhost:3000/" 100 user ∷ []))
    ⊎ ((u u' : User) × (others : List User) × (found ≡ u ∷ u' ∷ others)
        × (r ≡ err multiple_objects_returned)
        × (db' ≡ small_db))
request_view_hides_example =
    request_view_hides test_tokens "http://localhost:3000/" 100 "nobody@mail.io"
      (request_of bob globex) small_db
