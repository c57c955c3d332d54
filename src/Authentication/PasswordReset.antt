-- ===== src/Authentication/PasswordReset.antt =====
-- services/auth/password_reset_service.py, and its two views in apps/authentication/views.py. The
-- views get the fields that the serializers accepted.
use django_saas_kit.Rbac.Views.{with_user_pk}
use django_saas_kit.Users.Service.{get_display_name}
use django_saas_kit.Audit.{log}
use django_saas_kit.Invitations.Service.{with_email}
use django_saas_kit.Text.{strip, lower, rstrip_char, append}
use django_saas_kit.Models.{password_reset_requested, send_password_reset_email, Task, User}
use django_saas_kit.Base.{
  ◌/◌, ◌+◌, ◌≤◌, Option, List, Bool, String, ℕ, none, some, [], ◌∷◌, ◌≡◌, ◌≢◌, true, false, not,
  ◌++◌,
}
use django_saas_kit.Orm.{Orm}
use django_saas_kit.Http.{reply, Reply, Request, answer}
use django_saas_kit.Action.{
  weak_password, the_only, multiple_objects_returned, invalid_link, raise_if, malformed_link,
  modify, pure, validation, raise, ◌>>=◌, ErrorClass, gets, ◌>>◌, Action,
}

-- Django's `PasswordResetTokenGenerator`, which signs the key, the password and the time of a
-- request, and its encoding of a key in a link; a text that is no encoded key decodes to none.
pub record ResetTokens : Type 0 where
  pub urlsafe_base64_encode : ℕ → String
  pub urlsafe_base64_decode : String → Option ℕ
  pub make_token : (now : ℕ) → User → String
  pub check_token : (now : ℕ) → User → String → Bool
  -- `PASSWORD_RESET_TIMEOUT`, in seconds
  pub timeout : ℕ
  pub decode-encode : (pk : ℕ) → urlsafe_base64_decode (urlsafe_base64_encode pk) ≡ some pk
  -- A token is good until the timeout,
  pub check-make :
      (made now : ℕ) (user : User)
      → made ≤ now
      → now ≤ made + timeout
      → check_token now user (make_token made user) ≡ true
  -- ... and for no user whose password is not the one it was made with.
  pub check-changed :
      (made now : ℕ) (user changed : User)
      → user.password ≢ changed.password
      → check_token now changed (make_token made user) ≡ false

abbrev pub set_password : String → User → User
set_password hashed user = record user { password = some hashed }

module _ ⦃orm : Orm⦄ (tokens : ResetTokens) (frontend_url : String) where
  -- `f"{frontend_url}/reset-password/?uid={uid}&token={token}"`
  abbrev pub reset_link : (uid token : String) → String
  reset_link uid token =
      append (rstrip_char b'/' frontend_url)
        (append "/reset-password/?uid=" (append uid (append "&token=" token)))

  -- The email with the link of a user.
  abbrev pub reset_email : ℕ → User → Task
  reset_email now user =
      let uid = tokens.urlsafe_base64_encode user.pk in
      let token = tokens.make_token now user in
      send_password_reset_email user.email (get_display_name user) (reset_link uid token) uid token
        (tokens.timeout / 3600)

  -- `request_reset` on the users that its lookup has found
  unfoldable pub request_found : ℕ → List User → Action Unit
  request_found now [] = pure tt
  request_found now (user ∷ []) =
      modify (λ db. record db { queue = db.queue ++ reset_email now user ∷ [] })
  request_found now (u ∷ u' ∷ l) = raise multiple_objects_returned

  -- `PasswordResetService.request_reset`
  unfoldable pub request_reset : ℕ → (email : String) → Action Unit
  unfolding request_found
  request_reset now email =
      gets (λ db. orm.filter (with_email (lower (strip email))) db.users) >>= request_found now

  -- `PasswordResetRequestView.post`
  unfoldable pub request_view : ℕ → (email : String) → Request → Action (Reply Unit)
  unfolding request_reset
  request_view now email request = do
    request_reset now email
    log password_reset_requested (some request) none none "" none (("email", email) ∷ [])
    pure (reply 200 tt)

abbrev pub confirm_status : ErrorClass → Option ℕ
confirm_status validation = some 400
confirm_status _ = none

module _ ⦃orm : Orm⦄ (tokens : ResetTokens) (validate_password : String → User → Bool)
    (make_password : String → String) where
  -- `_user_from_uid` on what it decodes
  unfoldable pub user_of_pk : Option ℕ → Action User
  user_of_pk none = raise malformed_link
  user_of_pk (some pk) =
      gets (λ db. orm.filter (with_user_pk pk) db.users) >>= the_only malformed_link

  -- `_user_from_uid`
  unfoldable pub user_from_uid : String → Action User
  unfolding user_of_pk
  user_from_uid uid = user_of_pk (tokens.urlsafe_base64_decode uid)

  -- `PasswordResetService.confirm_reset`
  unfoldable pub confirm_reset : ℕ → (uid token new_password : String) → Action Unit
  unfolding user_from_uid
  confirm_reset now uid token new_password = do
    user ← user_from_uid uid
    raise_if (not (tokens.check_token now user token)) invalid_link
    raise_if (not (validate_password new_password user)) weak_password
    modify (λ db. record db {
      users = orm.save (with_user_pk user.pk) (set_password (make_password new_password)) db.users;
    })

  -- `PasswordResetConfirmView.post`
  unfoldable pub confirm_view : ℕ → (uid token new_password : String) → Action (Reply Unit)
  unfolding confirm_reset answer
  confirm_view now uid token new_password db =
      answer confirm_status (reply 200) (confirm_reset now uid token new_password db)
