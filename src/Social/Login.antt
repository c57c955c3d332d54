-- ===== src/Social/Login.antt =====
-- What a social login does, and for whom.
use django_saas_kit.Social.Search.{unique_username_ends}
use django_saas_kit.Action.{Error}
use django_saas_kit.Social.Usernames.{candidate, is_taken}
use django_saas_kit.Invitations.Service.{with_email}
use django_saas_kit.Text.{strip, lower, is_blank}
use django_saas_kit.Models.{Db, User}
use django_saas_kit.Base.{
  Option-cases, refl, List, Bool, String, ℕ, some, [], ◌∷◌, ◌≡◌, ◌⊎◌, true, false, inl, inr,
  List-cases, Bool-cases,
}
use django_saas_kit.Orm.{Result, Orm, ok}
use django_saas_kit.Http.{reply, Reply, answer}
use django_saas_kit.Authentication.Tokens.{Jwt, for_user}
use django_saas_kit.Social.Service.{
  google_info, fetch_google, GoogleData, Providers, SocialUserInfo, social_view, fetch,
  authenticate, get_or_create_user, found_or_created, create_named, social_tokens, social_user,
  SocialReply,
}
use Prim.Native.Char.{Char}

module _ ⦃orm : Orm⦄ (is_word : Char → Bool) (str : ℕ → String)
    (str_inj : (m n : ℕ) → str m ≡ str n → m ≡ n) (providers : Providers) (jwt : Jwt) where
  -- The reply, and the database, of a login that has tokens for a user.
  abbrev pub logged_in : ℕ → User → Db → Result Error (Reply SocialReply) × Db
  logged_in serial user db = (
    ok (reply 200 (record { pair = jwt.sign serial user; created = false })),
    record db {
      tokens = orm.create (record { user = some user.pk; is_blacklisted = false }) db.tokens;
    },
  )

  -- The database with a new user.
  abbrev pub with_new_user : ℕ → String → SocialUserInfo → Db → Db
  with_new_user pk name info db = record db {
    users = orm.create (social_user is_word str providers pk name info) db.users;
  }

  -- Getting a user for an identity: the first one with its email, and else a new one under a
  -- name that was free.
  get_or_create_cases :
      (pk : ℕ) (info : SocialUserInfo) (db : Db)
      → ((user : User) × (l : List User) × (orm.filter (with_email info.email) db.users ≡ user ∷ l)
          × (get_or_create_user is_word str providers pk info db ≡ (ok user, db)))
        ⊎ ((orm.filter (with_email info.email) db.users ≡ [])
            × (name : String) × (is_taken str db name ≡ false)
            × (get_or_create_user is_word str providers pk info db ≡ (
              ok (social_user is_word str providers pk name info),
              with_new_user pk name info db,
            )))
  unfolding get_or_create_user found_or_created create_named
  get_or_create_cases pk info db = elim (List-cases (orm.filter (with_email info.email) db.users)) [
    | inr (inl (user, one)) ↦ inl (user, [], one, rw one refl)
    | inr (inr (u, u', l, more)) ↦ inl (u, u' ∷ l, more, rw more refl)
    | inl missing ↦
        let (k, found, free) = unique_username_ends str str_inj info.username db in
        let free_name : is_taken str db (candidate str info.username k) ≡ false = free in
        inr (
          missing,
          candidate str info.username k,
          free,
          rw (missing, found, create_named, orm.atomic_lem, free_name) refl,
        )
  ]

  -- Where no two numbers have the same text, the provider and the token are not blank and the
  -- provider has vouched for an identity, the login answers with tokens at once: those of the first
  -- user with its email, with no user written, and where there is none, those of one new user with
  -- this email, no usable password and a name that no user had. Neither asks for a second factor.
  pub social_login_exact :
      (pk serial : ℕ) (provider access_token : String) (info : SocialUserInfo) (db : Db)
      → is_blank (strip provider) ≡ false
      → is_blank (strip access_token) ≡ false
      → fetch is_word str providers (strip provider) (strip access_token) db ≡ (ok info, db)
      → let run = social_view is_word str providers jwt pk serial provider access_token db in
        ((user : User) × (l : List User) × (orm.filter (with_email info.email) db.users ≡ user ∷ l)
          × (run ≡ logged_in serial user db))
        ⊎ ((orm.filter (with_email info.email) db.users ≡ [])
            × (name : String) × (is_taken str db name ≡ false)
            × (run
                ≡ logged_in serial
                    (social_user is_word str providers pk name info)
                    (with_new_user pk name info db)))
  unfolding social_view authenticate answer social_tokens for_user
  social_login_exact pk serial provider access_token info db has_provider has_token fetched =
      elim (get_or_create_cases pk info db) [
        | inl (user, l, found, e) ↦
            inl (user, l, found, rw (has_provider, has_token, fetched, e) refl)
        | inr (missing, name, free, e) ↦
            inr (missing, name, free, rw (has_provider, has_token, fetched, e) refl)
      ]

  -- A login with Google answers with tokens only where Google knows the token, and says of its
  -- user that the email is verified; the email is not blank.
  google_login_verified :
      (pk serial status : ℕ) (access_token : String) (answered : SocialReply) (db : Db)
      → (social_view is_word str providers jwt pk serial "google" access_token db).0
        ≡ ok (reply status answered)
      → (d : GoogleData) × (providers.google_userinfo (strip access_token) ≡ some d)
        × (d.email_verified ≡ true)
        × (is_blank (lower (strip d.email)) ≡ false)
  unfolding social_view authenticate answer social_tokens fetch fetch_google google_info strip lower
  google_login_verified pk serial status access_token answered db h =
      elim (Bool-cases (is_blank (strip access_token))) [
        | inl blank ↦ let k = rw (social_view, blank) at h in absurd (cc k)
        | inr given ↦ elim (Option-cases (providers.google_userinfo (strip access_token))) [
          | inl unknown ↦ let k = rw (social_view, given, unknown) at h in absurd (cc k)
          | inr (d, known) ↦ elim (Bool-cases (is_blank (lower (strip d.email)))) [
            | inl blank ↦ let k = rw (social_view, given, known, blank) at h in absurd (cc k)
            | inr email ↦ elim (Bool-cases d.email_verified) [
              | inr unverified ↦
                  let k = rw (social_view, given, known, email, unverified) at h in absurd (cc k)
              | inl verified ↦ (d, known, verified, email)
            ]
          ]
        ]
      ]
