-- ===== src/Social/Usernames.antt =====
-- `SocialAuthService._make_username` and `_unique_username`.

use django_saas_kit.Users.Service.{with_username}
use django_saas_kit.Orm.Queries.{exists}
use django_saas_kit.Models.{Db}
use django_saas_kit.Text.{sub_nonword, is_blank, lstrip_char, rstrip_char, append, take_chars}
use Prim.Native.Char.{Char}
use django_saas_kit.Base.{length, Option, Bool, String, ℕ, none, some, zero, suc, if◌then◌else◌}
use django_saas_kit.Orm.{Orm}

-- `SocialAuthService._make_username`
unfoldable pub make_username : (Char → Bool) → (provider base : String) → String
make_username is_word provider base =
    let clean = take_chars 30 (rstrip_char b'_' (lstrip_char b'_' (sub_nonword is_word base))) in
    if is_blank clean then append provider "_user" else clean

-- `f"{base}_{counter}"`, for the text of a number
abbrev pub numbered : (ℕ → String) → String → ℕ → String
numbered str base counter = append base (append "_" (str counter))

-- The loop of `_unique_username`, for a test whether a name is taken; none where the fuel ends first.
unfoldable pub search_username :
    (ℕ → String) → (String → Bool) → String → (fuel : ℕ) → String → ℕ → Option String
search_username str taken base zero username counter = none
search_username str taken base (suc fuel) username counter =
    let rest = search_username str taken base fuel (numbered str base counter) (suc counter) in
    if taken username then rest else some username

-- The names that the loop tries.
abbrev pub candidate : (ℕ → String) → String → ℕ → String
candidate str base zero = base
candidate str base (suc n) = numbered str base (suc n)

module _ ⦃orm : Orm⦄ (str : ℕ → String) where
  abbrev pub is_taken : Db → String → Bool
  is_taken db username = exists (with_username username) db.users

  -- `SocialAuthService._unique_username`, one more turn than there are users being enough
  unfoldable pub unique_username : String → Db → Option String
  unfolding search_username
  unique_username base db =
      search_username str (is_taken db) base (suc (length (orm.all db.users))) base 1
