-- ===== src/Authentication/RaceTests.antt =====
-- Requests of Bob with his backup codes, at once.
use django_saas_kit.Base.{
  ℕ, String, true, false, none, some, [], ◌∷◌, ◌≡◌, refl, str_eq, if◌then◌else◌, select, ◌||◌,
}
use django_saas_kit.Orm.{ok, memory}
use django_saas_kit.Cache.{local_memory}
use django_saas_kit.Http.{reply, failure}
use django_saas_kit.Action.{invalid_code}
use django_saas_kit.Text.{is_blank, strip, upper}
use django_saas_kit.Fixtures.{bob, small_db}
use django_saas_kit.Users.Gdpr.{totp_of}
use django_saas_kit.Authentication.Samples.{test_jwt, test_pyotp, bob_totp}
use django_saas_kit.Authentication.Tokens.{Site}
use django_saas_kit.Authentication.TwoFactor.{
  complete_view, session_cache_key, normal_code, set_codes, without_code,
}
use django_saas_kit.Authentication.Interleaving.{Request, answered, run_schedule, both_arrived}
use django_saas_kit.Authentication.Races.{Ready}
use django_saas_kit.Authentication.Overlap.{one_code_two_logins, used_code_returns}

-- Bob has given his password from three devices.
abbrev three_logins : Site
three_logins = record {
  db = record small_db { totps = bob_totp ∷ [] };
  sessions = λ now key.
      if str_eq key "2fa_pre_auth:k1"
        || str_eq key "2fa_pre_auth:k2"
        || str_eq key "2fa_pre_auth:k3"
      then some 2
      else none;
}

abbrev request_with : (serial : ℕ) → (session_key code : String) → Request
request_with serial session_key code = record {
  now = 1100;
  serial = serial;
  session_key = session_key;
  code = code;
}

abbrev first_code : Request
first_code = request_with 5 "k1" " AAAA1111"

abbrev first_code_again : Request
first_code_again = request_with 6 "k2" "aaaa1111 "

abbrev second_code : Request
second_code = request_with 6 "k2" "BBBB2222"

abbrev first_code_later : Request
first_code_later = request_with 7 "k3" "aaaa1111"

request-Ready :
    (serial : ℕ) (session_key code : String)
    → is_blank (strip session_key) ≡ false
    → is_blank (strip code) ≡ false
    → three_logins.sessions 1100 (session_cache_key (strip session_key)) ≡ some 2
    → Ready test_pyotp test_jwt (request_with serial session_key code) bob bob_totp three_logins
unfolding select
request-Ready serial session_key code key_given code_given session = record {
  key_given = key_given;
  code_given = code_given;
  session = session;
  not_zero = refl;
  known = refl;
  protected = refl;
  enabled = refl;
}

one_code_two_logins_example :
    let apart =
      run_schedule test_pyotp test_jwt first_code first_code_again
        (true ∷ true ∷ false ∷ false ∷ [])
        (both_arrived test_pyotp test_jwt three_logins) in
    let overlapping =
      run_schedule test_pyotp test_jwt first_code first_code_again
        (true ∷ false ∷ true ∷ false ∷ [])
        (both_arrived test_pyotp test_jwt three_logins) in
    ((apart.first ≡ answered (ok (reply 200 (test_jwt.sign 5 bob))))
      × (apart.second ≡ answered (ok (failure 400 invalid_code))))
    × (overlapping.first ≡ answered (ok (reply 200 (test_jwt.sign 5 bob))))
    × (overlapping.second ≡ answered (ok (reply 200 (test_jwt.sign 6 bob))))
unfolding strip session_cache_key normal_code upper
one_code_two_logins_example =
    one_code_two_logins test_pyotp test_jwt first_code first_code_again bob bob_totp three_logins
      (request-Ready 5 "k1" " AAAA1111" refl refl refl)
      (request-Ready 6 "k2" "aaaa1111 " refl refl refl) refl (refl, refl) (refl, refl) refl

used_code_returns_example :
    let race =
      run_schedule test_pyotp test_jwt first_code second_code
        (true ∷ false ∷ true ∷ false ∷ [])
        (both_arrived test_pyotp test_jwt three_logins) in
    (race.first ≡ answered (ok (reply 200 (test_jwt.sign 5 bob))))
    × (race.second ≡ answered (ok (reply 200 (test_jwt.sign 6 bob))))
    × (memory.filter (totp_of 2) race.site.db.totps
        ≡ set_codes (without_code (normal_code (strip "BBBB2222")) bob_totp.backup_codes) bob_totp
          ∷ [])
    × ((complete_view test_pyotp test_jwt 1100 7 "k3" "aaaa1111" race.site).0
        ≡ ok (reply 200 (test_jwt.sign 7 bob)))
unfolding strip session_cache_key normal_code upper
used_code_returns_example =
    used_code_returns test_pyotp test_jwt first_code second_code first_code_later bob bob_totp
      three_logins (request-Ready 5 "k1" " AAAA1111" refl refl refl)
      (request-Ready 6 "k2" "BBBB2222" refl refl refl)
      (request-Ready 7 "k3" "aaaa1111" refl refl refl) refl refl (refl, refl) (refl, refl)
      (refl, refl) refl refl
