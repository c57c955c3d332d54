-- ===== src/Users/Service.antt =====
-- `UserService.create_user`. Django's password validators, its hashing and `full_clean` are
-- arguments, as is the key of the new row.
use django_saas_kit.Orm.Queries.{exists}
use django_saas_kit.Text.{contains_char, lower, is_blank, append, strip}
use django_saas_kit.Orm.{Orm}
use django_saas_kit.Base.{
  ◌++◌, not, ◌||◌, false, true, ℕ, if◌then◌else◌, str_eq, Bool, String, some, [], ◌∷◌,
}
use django_saas_kit.Models.{Db, User, send_welcome_email}
use django_saas_kit.Action.{
  pure, modify, raise_if, gets, ◌>>=◌, ◌>>◌, Action, invalid_email, username_required,
  password_required, weak_password, username_taken, email_taken, not_clean,
}
use django_saas_kit.Invitations.Service.{with_email}

pub record CreateUserInput : Type 0 where
  pub email : String
  pub username : String
  pub password : String
  pub first_name : String
  pub last_name : String

abbrev pub with_username : String → User → Bool
with_username username u = str_eq u.username username

-- `UserService.get_display_name`
unfoldable pub get_display_name : User → String
unfolding strip append
get_display_name user =
    let full_name = strip (append user.first_name (append " " user.last_name)) in
    if is_blank full_name then user.username else full_name

module _ ⦃orm : Orm⦄ (validate_password : (password username email : String) → Bool)
    (make_password : String → String) (full_clean : User → Db → Bool) where
  -- The row of a new account.
  abbrev pub new_user : ℕ → CreateUserInput → User
  new_user pk input = record {
    pk = pk;
    username = strip input.username;
    email = lower (strip input.email);
    first_name = strip input.first_name;
    last_name = strip input.last_name;
    password = some (make_password input.password);
    is_active = true;
    is_superuser = false;
  }

  -- The block under `transaction.atomic()`
  abbrev pub store_user : ℕ → CreateUserInput → Action Unit
  store_user pk input = do
    clean ← gets (full_clean (new_user pk input))
    raise_if (not clean) not_clean
    modify (λ db. record db { users = orm.create (new_user pk input) db.users })

  -- `UserService.create_user`; the welcome email is queued when the block has committed
  unfoldable pub create_user : ℕ → CreateUserInput → Action User
  create_user pk input = do
    let email = lower (strip input.email)
    let username = strip input.username
    raise_if (is_blank email || not (contains_char b'@' email)) invalid_email
    raise_if (is_blank username) username_required
    raise_if (is_blank input.password) password_required
    raise_if (not (validate_password input.password username email)) weak_password
    same_username ← gets (λ db. exists (with_username username) db.users)
    raise_if same_username username_taken
    same_email ← gets (λ db. exists (with_email email) db.users)
    raise_if same_email email_taken
    orm.atomic (store_user pk input)
    modify (λ db. record db { queue = db.queue ++ send_welcome_email pk ∷ [] })
    pure (new_user pk input)
