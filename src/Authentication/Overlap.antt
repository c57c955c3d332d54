-- ===== src/Authentication/Overlap.antt =====
-- One backup code in two requests at once, and two backup codes.
use django_saas_kit.Rbac.Service.{is_in}
use django_saas_kit.Users.Gdpr.{totp_of}
use django_saas_kit.Base.{◌∙◌, sym, ℕ, true, false, [], ◌∷◌, ◌≡◌, refl, str_eq}
use django_saas_kit.Orm.{Orm, ok}
use django_saas_kit.Cache.{Cache}
use django_saas_kit.Models.{User, UserTotp}
use django_saas_kit.Http.{reply, failure}
use django_saas_kit.Action.{invalid_code}
use django_saas_kit.Text.{strip}
use django_saas_kit.Authentication.Tokens.{Pyotp, Jwt, Site}
use django_saas_kit.Authentication.TwoFactor.{
  complete_view, session_cache_key, normal_code, without_code, set_codes,
}
use django_saas_kit.Authentication.Codes.{still_in-without, not_in-without}
use django_saas_kit.Authentication.Interleaving.{
  answer_with, Request, answered, advance, step, run_schedule, both_arrived,
}
use django_saas_kit.Authentication.Races.{
  undisturbed, Ready, WithBackupCode, used, load_lem, settle_lem, settle_refuses, used-Ready,
}

-- The requests have sessions of their own.
abbrev pub IsApart : Request → Request → Type 0
IsApart r1 r2 =
    str_eq (session_cache_key (strip r1.session_key)) (session_cache_key (strip r2.session_key))
    ≡ false

module _ ⦃orm : Orm⦄ ⦃cache : Cache ℕ⦄ (pyotp : Pyotp) (jwt : Jwt) where
  -- Two requests that both read before one of them writes.
  overlap :
      (r1 r2 : Request) (user : User) (t : UserTotp) (s : Site)
      → Ready pyotp jwt r1 user t s
      → Ready pyotp jwt r2 user t s
      → WithBackupCode pyotp jwt r1 t
      → WithBackupCode pyotp jwt r2 t
      → run_schedule pyotp jwt r1 r2 (true ∷ false ∷ true ∷ false ∷ []) (both_arrived pyotp jwt s)
        ≡ record {
          site = used pyotp jwt r2 user t (used pyotp jwt r1 user t s);
          first = answered (ok (reply 200 (jwt.sign r1.serial user)));
          second = answered (ok (reply 200 (jwt.sign r2.serial user)));
        }
  unfolding run_schedule step advance
  overlap r1 r2 user t s ready1 ready2 code1 code2 =
      rw
        (
          load_lem pyotp jwt r1 user t s ready1,
          load_lem pyotp jwt r2 user t s ready2,
          settle_lem pyotp jwt r1 user t s code1,
          settle_lem pyotp jwt r2 user t (used pyotp jwt r1 user t s) code2,
        )
        refl

  -- The second request begins after the first one has ended.
  in_turn :
      (r1 r2 : Request) (user : User) (t : UserTotp) (s : Site)
      → Ready pyotp jwt r1 user t s
      → Ready pyotp jwt r2 user t s
      → IsApart r1 r2
      → WithBackupCode pyotp jwt r1 t
      → WithBackupCode pyotp jwt r2 t
      → normal_code (strip r2.code) ≡ normal_code (strip r1.code)
      → run_schedule pyotp jwt r1 r2 (true ∷ true ∷ false ∷ false ∷ []) (both_arrived pyotp jwt s)
        ≡ record {
          site = used pyotp jwt r1 user t s;
          first = answered (ok (reply 200 (jwt.sign r1.serial user)));
          second = answered (ok (failure 400 invalid_code));
        }
  unfolding run_schedule step advance
  in_turn r1 r2 user t s ready1 ready2 apart code1 (other, listed) same =
      let t' : UserTotp = set_codes (without_code (normal_code (strip r1.code)) t.backup_codes) t in
      let s' : Site = used pyotp jwt r1 user t s in
      rw
        (
          load_lem pyotp jwt r1 user t s ready1,
          settle_lem pyotp jwt r1 user t s code1,
          load_lem pyotp jwt r2 user t' s'
              (used-Ready pyotp jwt r1 r2 user t t s refl ready2 apart),
          settle_refuses pyotp jwt r2 user t' s' other
              (rw same (not_in-without (normal_code (strip r1.code)) t.backup_codes)),
        )
        refl

  -- Two requests with sessions of their own, of one user with an enabled second factor, give the
  -- same unused backup code. Where the second one begins after the first one has ended, the first
  -- one gets tokens and the second one the status 400. Where both have read the row before one of
  -- them writes, both get tokens.
  pub one_code_two_logins :
      (r1 r2 : Request) (user : User) (t : UserTotp) (s : Site)
      → Ready pyotp jwt r1 user t s
      → Ready pyotp jwt r2 user t s
      → IsApart r1 r2
      → WithBackupCode pyotp jwt r1 t
      → WithBackupCode pyotp jwt r2 t
      → normal_code (strip r2.code) ≡ normal_code (strip r1.code)
      → let apart =
          run_schedule pyotp jwt r1 r2
            (true ∷ true ∷ false ∷ false ∷ [])
            (both_arrived pyotp jwt s) in
        let overlapping =
          run_schedule pyotp jwt r1 r2
            (true ∷ false ∷ true ∷ false ∷ [])
            (both_arrived pyotp jwt s) in
        ((apart.first ≡ answered (ok (reply 200 (jwt.sign r1.serial user))))
          × (apart.second ≡ answered (ok (failure 400 invalid_code))))
        × (overlapping.first ≡ answered (ok (reply 200 (jwt.sign r1.serial user))))
        × (overlapping.second ≡ answered (ok (reply 200 (jwt.sign r2.serial user))))
  one_code_two_logins r1 r2 user t s ready1 ready2 apart code1 code2 same =
      rw
        (
          in_turn r1 r2 user t s ready1 ready2 apart code1 code2 same,
          overlap r1 r2 user t s ready1 ready2 code1 code2,
        )
        ((refl, refl), refl, refl)

  -- A request with a session of its own gets tokens with a backup code of the row.
  alone :
      (r : Request) (user : User) (t : UserTotp) (s : Site)
      → Ready pyotp jwt r user t s
      → WithBackupCode pyotp jwt r t
      → answer_with pyotp jwt (complete_view pyotp jwt r.now r.serial r.session_key r.code s)
        ≡ (answered (ok (reply 200 (jwt.sign r.serial user))), used pyotp jwt r user t s)
  unfolding advance
  alone r user t s ready code =
      let whole = undisturbed pyotp jwt r s in
      sym (rw (load_lem pyotp jwt r user t s ready) at whole) ∙ settle_lem pyotp jwt r user t s code

  -- Two requests of one user give two backup codes, and both have read the row before one of them
  -- writes. Both get tokens, the second one writes the list without its own code alone, and a third
  -- request with a session of its own gets tokens with the code of the first one again.
  pub used_code_returns :
      (r1 r2 r3 : Request) (user : User) (t : UserTotp) (s : Site)
      → Ready pyotp jwt r1 user t s
      → Ready pyotp jwt r2 user t s
      → Ready pyotp jwt r3 user t s
      → IsApart r1 r3
      → IsApart r2 r3
      → WithBackupCode pyotp jwt r1 t
      → WithBackupCode pyotp jwt r2 t
      → WithBackupCode pyotp jwt r3 t
      → normal_code (strip r3.code) ≡ normal_code (strip r1.code)
      → str_eq (normal_code (strip r1.code)) (normal_code (strip r2.code)) ≡ false
      → let race =
          run_schedule pyotp jwt r1 r2
            (true ∷ false ∷ true ∷ false ∷ [])
            (both_arrived pyotp jwt s) in
        (race.first ≡ answered (ok (reply 200 (jwt.sign r1.serial user))))
        × (race.second ≡ answered (ok (reply 200 (jwt.sign r2.serial user))))
        × (orm.filter (totp_of user.pk) race.site.db.totps
            ≡ set_codes (without_code (normal_code (strip r2.code)) t.backup_codes) t ∷ [])
        × ((complete_view pyotp jwt r3.now r3.serial r3.session_key r3.code race.site).0
            ≡ ok (reply 200 (jwt.sign r3.serial user)))
  used_code_returns r1 r2 r3 user t s ready1 ready2 ready3 apart1 apart2 code1 code2 (other, listed)
        same differ =
      let s1 : Site = used pyotp jwt r1 user t s in
      let s2 : Site = used pyotp jwt r2 user t s1 in
      let t1 : UserTotp = set_codes (without_code (normal_code (strip r1.code)) t.backup_codes) t in
      let t2 : UserTotp = set_codes (without_code (normal_code (strip r2.code)) t.backup_codes) t in
      let ready : Ready pyotp jwt r3 user t2 s2 =
        used-Ready pyotp jwt r2 r3 user t t1 s1 refl
          (used-Ready pyotp jwt r1 r3 user t t s refl ready3 apart1) apart2 in
      let still : is_in (normal_code (strip r3.code)) t2.backup_codes ≡ true =
        still_in-without (normal_code (strip r3.code)) (normal_code (strip r2.code)) t.backup_codes
          (rw same differ) listed in
      let again = alone r3 user t2 s2 ready (other, still) in
      rw (overlap r1 r2 user t s ready1 ready2 code1 code2) (refl, refl, ready.protected, cc again)
