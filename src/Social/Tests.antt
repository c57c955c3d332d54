-- ===== src/Social/Tests.antt =====
-- Runs of the social login: a known user with a second factor, and a new one whose name is taken.
use django_saas_kit.Invitations.Service.{with_email}
use django_saas_kit.Social.Usernames.{make_username, is_taken, candidate, unique_username}
use django_saas_kit.Text.{
  sub_nonword, lstrip_char, rstrip_char, take_chars, after_first, before, lower, strip,
}
use django_saas_kit.Models.{User, Db}
use Prim.Native.Char.{Char, code}
use django_saas_kit.Base.{
  refl, List, Bool, String, ℕ, none, some, [], ◌∷◌, ◌≡◌, ◌⊎◌, true, false, select, ◌||◌, leb, ◌&&◌,
}
use django_saas_kit.Orm.{memory}
use django_saas_kit.Fixtures.{alice, bob, small_db}
use django_saas_kit.Authentication.Samples.{test_jwt, ones, ones_inj}
use django_saas_kit.Social.Service.{
  primary_email, fetch, Providers, SocialUserInfo, social_view, social_user,
}
use django_saas_kit.Social.Login.{with_new_user, social_login_exact, logged_in}
use django_saas_kit.Social.Search.{unique_username_ends}

-- The class `\w`, on ASCII letters and digits.
abbrev word_char : Char → Bool
word_char c =
    (leb 48 (code c) && leb (code c) 57)
    || (leb 65 (code c) && leb (code c) 90)
    || (leb 97 (code c) && leb (code c) 122)

-- Bob's Google account, and a GitHub account whose login is the name of Alice's account here.
abbrev test_providers : Providers
test_providers = record {
  google_userinfo = λ token. some (record {
    email = "Bob@globex.io";
    email_verified = true;
    given_name = "Bob";
    family_name = "";
    sub = "g1";
  });
  github_user = λ token.
      some (record { id = "7"; login = "__ann__"; email = none; name = some "Ann Lee Ray" });
  github_emails =
      λ token. some (record { email = "Ann@mail.io"; primary = true; verified = true } ∷ []);
}

-- Alice goes by the name `ann` here.
abbrev ann_db : Db
ann_db = record small_db { users = record alice { username = "ann" } ∷ bob ∷ [] }

abbrev ann_info : SocialUserInfo
ann_info = record {
  email = "ann@mail.io";
  username = "ann";
  first_name = "Ann";
  last_name = "Lee Ray";
  provider = "github";
  provider_id = "7";
}

unique_username_ends_example :
    (k : ℕ) × (unique_username ones "ann" ann_db ≡ some (candidate ones "ann" k))
    × (is_taken ones ann_db (candidate ones "ann" k) ≡ false)
unique_username_ends_example = unique_username_ends ones ones_inj "ann" ann_db

social_login_exact_example :
    let run = social_view word_char ones test_providers test_jwt 9 1 " GitHub" "tok" ann_db in
    ((user : User) × (l : List User) × (memory.filter (with_email "ann@mail.io") ann_db.users
        ≡ user ∷ l)
      × (run ≡ logged_in word_char ones ones_inj test_providers test_jwt 1 user ann_db))
    ⊎ ((memory.filter (with_email "ann@mail.io") ann_db.users ≡ [])
        × (name : String) × (is_taken ones ann_db name ≡ false)
        × (run
            ≡ logged_in word_char ones ones_inj test_providers test_jwt 1
                (social_user word_char ones test_providers 9 name ann_info)
                (with_new_user word_char ones ones_inj test_providers test_jwt 9 name ann_info
                  ann_db)))
unfolding strip lower fetch make_username primary_email before after_first take_chars rstrip_char
    lstrip_char sub_nonword select
social_login_exact_example =
    social_login_exact word_char ones ones_inj test_providers test_jwt 9 1 " GitHub" "tok" ann_info
      ann_db refl refl refl
