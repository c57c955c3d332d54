-- ===== src/Social/Service.antt =====
-- services/auth/social_auth_service.py and `SocialAuthView`. The answers of the providers are a
-- parameter: none where `requests` raises, and else the fields of the JSON that are read, a missing
-- text being the default of `.get`.
use django_saas_kit.Invitations.Service.{with_email}
use django_saas_kit.Social.Usernames.{make_username, is_taken, unique_username}
use django_saas_kit.Orm.Queries.{first}
use django_saas_kit.Text.{after_first, before, strip, is_blank, lower}
use django_saas_kit.Models.{User}
use django_saas_kit.Authentication.Tokens.{for_user, Jwt, TokenPair}
use Prim.Native.Char.{Char}
use django_saas_kit.Base.{
  Option, List, Bool, String, ℕ, none, some, [], ◌∷◌, true, false, not, if◌then◌else◌, str_eq, ◌&&◌,
}
use django_saas_kit.Orm.{ok, Orm}
use django_saas_kit.Http.{reply, failure, Reply, answer}
use django_saas_kit.Action.{
  after, access_token_required, modify, unverified_email, provider_required, account_exists,
  no_provider_email, conflict, raise_if, ◌>>=◌, unsupported_provider, token_validation_failed,
  out_of_fuel, validation, gets, pure, raise, ErrorClass, ◌>>◌, Action,
}

pub record GoogleData : Type 0 where
  pub email : String
  pub email_verified : Bool
  pub given_name : String
  pub family_name : String
  pub sub : String

pub record GithubData : Type 0 where
  pub id : String
  pub login : String
  pub email : Option String
  pub name : Option String

pub record GithubEmail : Type 0 where
  pub email : String
  pub primary : Bool
  pub verified : Bool

pub record Providers : Type 0 where
  pub google_userinfo : (access_token : String) → Option GoogleData
  pub github_user : (access_token : String) → Option GithubData
  pub github_emails : (access_token : String) → Option (List GithubEmail)

pub record SocialUserInfo : Type 0 where
  pub email : String
  pub username : String
  pub first_name : String
  pub last_name : String
  pub provider : String
  pub provider_id : String

pub record SocialReply : Type 0 where
  pub pair : TokenPair
  pub created : Bool

-- `x or ""`
abbrev text_or_empty : Option String → String
text_or_empty none = ""
text_or_empty (some s) = s

-- The first email that is primary and verified, or the empty text.
unfoldable pub primary_email : List GithubEmail → String
primary_email [] = ""
primary_email (entry ∷ entries) =
    let rest = primary_email entries in
    if entry.primary && entry.verified then lower (strip entry.email) else rest

module _ ⦃orm : Orm⦄ (is_word : Char → Bool) (str : ℕ → String) (providers : Providers) where
  unfoldable pub google_info : GoogleData → Action SocialUserInfo
  google_info data' = do
    let email = lower (strip data'.email)
    raise_if (is_blank email) no_provider_email
    raise_if (not data'.email_verified) unverified_email
    pure (record {
      email = email;
      username = make_username is_word "google" email;
      first_name = data'.given_name;
      last_name = data'.family_name;
      provider = "google";
      provider_id = data'.sub;
    })

  -- `_fetch_google` on what the provider answers
  unfoldable pub fetch_google : Option GoogleData → Action SocialUserInfo
  unfolding google_info
  fetch_google none = raise token_validation_failed
  fetch_google (some data') = google_info data'

  -- `_fetch_github` from the email on
  unfoldable pub github_info : GithubData → String → Action SocialUserInfo
  github_info data' email = do
    raise_if (is_blank email) no_provider_email
    let name = text_or_empty data'.name
    pure (record {
      email = email;
      username =
          make_username is_word "github" (if is_blank data'.login then email else data'.login);
      first_name = before b' ' name;
      last_name = after_first b' ' name;
      provider = "github";
      provider_id = data'.id;
    })

  unfoldable pub github_listed : GithubData → Option (List GithubEmail) → Action SocialUserInfo
  unfolding github_info
  github_listed data' none = raise token_validation_failed
  github_listed data' (some entries) = github_info data' (primary_email entries)

  -- `_fetch_github` on what the provider answers
  unfoldable pub fetch_github : (access_token : String) → Option GithubData → Action SocialUserInfo
  unfolding github_listed
  fetch_github access_token none = raise token_validation_failed
  fetch_github access_token (some data') =
      let email = lower (strip (text_or_empty data'.email)) in
      if is_blank email
      then github_listed data' (providers.github_emails access_token)
      else github_info data' email

  -- The row of a user that a provider knows.
  abbrev pub social_user : ℕ → String → SocialUserInfo → User
  social_user pk username info = record {
    pk = pk;
    username = username;
    email = info.email;
    first_name = info.first_name;
    last_name = info.last_name;
    password = none;
    is_active = true;
    is_superuser = false;
  }

  -- The block under `transaction.atomic()`; the username is the column that must be unique.
  abbrev pub store_social : ℕ → String → SocialUserInfo → Action User
  store_social pk username info = do
    used ← gets (λ db. is_taken str db username)
    raise_if used account_exists
    modify (λ db. record db { users = orm.create (social_user pk username info) db.users })
    pure (social_user pk username info)

  unfoldable pub create_named : ℕ → SocialUserInfo → Option String → Action User
  create_named pk info none = raise out_of_fuel
  create_named pk info (some username) = orm.atomic (store_social pk username info)

  -- `_get_or_create_user` on the first user with the email
  unfoldable pub found_or_created : ℕ → SocialUserInfo → Option User → Action User
  unfolding create_named
  found_or_created pk info (some user) = pure user
  found_or_created pk info none = gets (unique_username str info.username) >>= create_named pk info

  -- `_get_or_create_user`
  unfoldable pub get_or_create_user : ℕ → SocialUserInfo → Action User
  unfolding found_or_created
  get_or_create_user pk info =
      gets (λ db. first (with_email info.email) db.users) >>= found_or_created pk info

  -- `provider.lower()`, and the call of the provider
  unfoldable pub fetch : (provider access_token : String) → Action SocialUserInfo
  unfolding fetch_google fetch_github
  fetch provider access_token =
      if str_eq (lower provider) "google"
      then fetch_google (providers.google_userinfo access_token)
      else if str_eq (lower provider) "github"
      then fetch_github access_token (providers.github_user access_token)
      else raise unsupported_provider

  -- `SocialAuthService.authenticate`
  unfoldable pub authenticate : ℕ → (provider access_token : String) → Action User
  unfolding fetch get_or_create_user
  authenticate pk provider access_token = fetch provider access_token >>= get_or_create_user pk

abbrev pub social_status : ErrorClass → Option ℕ
social_status validation = some 401
social_status conflict = some 409
social_status _ = none

module _ ⦃orm : Orm⦄ (is_word : Char → Bool) (str : ℕ → String) (providers : Providers)
    (jwt : Jwt) where
  -- The reply for a user; nothing sets the attribute that `created` reads, so that it is false.
  unfoldable pub social_tokens : ℕ → Reply User → Action (Reply SocialReply)
  unfolding for_user
  social_tokens serial (failure status e) = pure (failure status e)
  social_tokens serial (reply status user) = do
    pair ← for_user jwt serial user
    pure (reply status (record { pair = pair; created = false }))

  -- `SocialAuthView.post`
  unfoldable pub social_view :
      (pk serial : ℕ) → (provider access_token : String) → Action (Reply SocialReply)
  unfolding authenticate answer social_tokens
  social_view pk serial raw_provider raw_token db =
      if is_blank (strip raw_provider)
      then (ok (failure 400 provider_required), db)
      else if is_blank (strip raw_token)
      then (ok (failure 400 access_token_required), db)
      else after
          (answer social_status (reply 200)
            (authenticate is_word str providers pk (strip raw_provider) (strip raw_token) db))
          (social_tokens serial)
