-- ===== src/Authentication/BackupCodes.antt =====
-- Backup codes over sequences of calls, each of which ends before the next one begins.
use django_saas_kit.Orm.Queries.{select_pass}
use django_saas_kit.Authentication.Codes.{use-IsSpent, spent_unlisted, IsSpent}
use django_saas_kit.Users.Gdpr.{totp_of}
use django_saas_kit.Http.{reply}
use django_saas_kit.Rbac.Service.{is_in}
use django_saas_kit.Rbac.Views.{with_user_pk}
use django_saas_kit.Text.{is_blank, strip}
use django_saas_kit.Models.{Db, UserTotp, User}
use django_saas_kit.Authentication.TwoFactor.{
  use_backup_code, check_code, normal_code, finish, complete_totp, session_cache_key, complete_user,
  complete_session, complete_view,
}
use django_saas_kit.Cache.{Cache}
use django_saas_kit.Orm.{ok, Orm}
use django_saas_kit.Authentication.Tokens.{for_user, Site, TokenPair, Jwt, Pyotp}
use django_saas_kit.Base.{
  ◌∙◌, sym, head?, Bool-cases, List, String, ℕ, ◌||◌, ◌==◌, ◌≡◌, some, [], ◌∷◌, arith, true, false,
  inl, inr,
}
use django_saas_kit.Authentication.Login.{Proved, complete_view-needs_code}
use django_saas_kit.Authentication.Once.{run_all, AllAvoid, run_all-IsSpent, Op}

-- No time and no secret make the text a code of the second factor.
abbrev pub IsNoTotp : Pyotp → String → Type 0
IsNoTotp pyotp code = (now : ℕ) (secret : String) → pyotp.verify now secret code ≡ false

head_some : {A : Type 0} (a : A) (l : List A) → head? l ≡ some a → (r : List A) × (l ≡ a ∷ r)
head_some a [] h = absurd (cc h)
head_some a (b ∷ r) h = (r, cc h)

module _ ⦃orm : Orm⦄ ⦃cache : Cache ℕ⦄ (pyotp : Pyotp) (jwt : Jwt) where
  -- The user of the session, whose row lists the code.
  listed_code :
      (now pk : ℕ) (raw : String) (user : User) (t : UserTotp) (db : Db)
      → IsNoTotp pyotp raw
      → Proved pyotp jwt now raw (orm.filter (with_user_pk pk) db.users) user t db
      → (user.pk ≡ pk)
        × (is_in (normal_code raw) t.backup_codes ≡ true)
        × (l : List UserTotp) × (orm.filter (totp_of pk) db.totps ≡ t ∷ l)
  listed_code now pk raw user t db never (one, found, on, inl valid) =
      absurd (cc (never now t.secret, valid))
  listed_code now pk raw user t db never (one, found, on, inr listed) =
      let own : (user.pk == pk) ≡ true =
        select_pass (with_user_pk pk) (orm.all db.users) [] user
          (sym (orm.filter_lem (with_user_pk pk) db.users) ∙ one) in
      let same : user.pk ≡ pk = ground arith in
      let (l, rows) = head_some t (orm.filter (totp_of user.pk) db.totps) found in
      (same, listed, l, rw same at rows)

  accepted-IsSpent :
      (now serial pk : ℕ) (key raw : String) (pair : TokenPair) (status : ℕ) (s : Site)
      → IsNoTotp pyotp (strip raw)
      → cache.get now (session_cache_key (strip key)) s.sessions ≡ some pk
      → (complete_view pyotp jwt now serial key raw s).0 ≡ ok (reply status pair)
      → IsSpent
          (normal_code (strip raw))
          pk
          (complete_view pyotp jwt now serial key raw s).1.db.totps
  unfolding complete_view complete_session complete_user complete_totp finish check_code
      use_backup_code for_user
  accepted-IsSpent now serial pk key raw pair status s never session got =
      let (pk', user, t, hit, proved) =
        complete_view-needs_code pyotp jwt now serial key raw pair status s got in
      let same : pk' ≡ pk = cc (hit, session) in
      let mine : Proved pyotp jwt now (strip raw) (orm.filter (with_user_pk pk) s.db.users) user t
          s.db =
        rw same at proved in
      let (one, held, on, code_ok) = mine in
      let (own, listed, l, rows) = listed_code now pk (strip raw) user t s.db never mine in
      let owned : (t.user == pk) ≡ true =
        select_pass (totp_of pk) (orm.all s.db.totps) l t
          (sym (orm.filter_lem (totp_of pk) s.db.totps) ∙ rows) in
      let of_user : t.user ≡ pk = ground arith in
      elim (Bool-cases (is_blank (strip key) || is_blank (strip raw))) [
        | inl blank ↦ let k = rw (complete_view, blank) at got in absurd (cc k)
        | inr given ↦ elim (Bool-cases (pk == 0)) [
          | inl zero_key ↦
              let k = rw (complete_view, given, session, complete_session, zero_key) at got in
              absurd (cc k)
          | inr other ↦
              rw
                (
                  given,
                  session,
                  complete_session,
                  other,
                  one,
                  complete_user,
                  held,
                  complete_totp,
                  on,
                  never now t.secret,
                  listed,
                  of_user,
                )
                (use-IsSpent (normal_code (strip raw)) pk t.backup_codes s.db.totps)
        ]
      ]

  -- Where a backup code, a text that is a code of the second factor for no secret at any time, got
  -- a user tokens, and no later setup draws it again, no sequence of setups, activations, removals
  -- and logins after it makes the code get the user tokens once more, at any time and in any other
  -- spelling that is no code of the second factor either.
  pub backup_code_once :
      (now serial pk : ℕ) (key raw : String) (pair : TokenPair) (status : ℕ) (s : Site)
      → IsNoTotp pyotp (strip raw)
      → cache.get now (session_cache_key (strip key)) s.sessions ≡ some pk
      → (complete_view pyotp jwt now serial key raw s).0 ≡ ok (reply status pair)
      → (ops : List Op) → AllAvoid (normal_code (strip raw)) ops
      → (later next : ℕ) (key' raw' : String) (pair' : TokenPair) (status' : ℕ)
      → let s' = run_all pyotp jwt ops (complete_view pyotp jwt now serial key raw s).1 in
        cache.get later (session_cache_key (strip key')) s'.sessions ≡ some pk
        → IsNoTotp pyotp (strip raw')
        → normal_code (strip raw') ≡ normal_code (strip raw)
        → ¬ ((complete_view pyotp jwt later next key' raw' s').0 ≡ ok (reply status' pair'))
  backup_code_once now serial pk key raw pair status s never session got ops fresh later next key'
        raw' pair' status' session' never' same again =
      let s1 : Site = (complete_view pyotp jwt now serial key raw s).1 in
      let s' : Site = run_all pyotp jwt ops s1 in
      let spent =
        run_all-IsSpent (normal_code (strip raw)) pk pyotp jwt ops s1 fresh
          (accepted-IsSpent now serial pk key raw pair status s never session got) in
      let (pk', user, t, hit, proved) =
        complete_view-needs_code pyotp jwt later next key' raw' pair' status' s' again in
      let same_pk : pk' ≡ pk = cc (hit, session') in
      let mine : Proved pyotp jwt later (strip raw') (orm.filter (with_user_pk pk) s'.db.users) user
          t s'.db =
        rw same_pk at proved in
      let (own, listed, l, rows) = listed_code later pk (strip raw') user t s'.db never' mine in
      let unlisted = spent_unlisted (normal_code (strip raw)) pk s'.db.totps t l spent rows in
      cc (listed, unlisted, same)
