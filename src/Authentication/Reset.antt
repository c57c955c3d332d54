-- ===== src/Authentication/Reset.antt =====
-- The reset of a password: what a link does, once, and what a request shows.
use django_saas_kit.Orm.Queries.{filter-save_self}
use django_saas_kit.Users.Service.{get_display_name}
use django_saas_kit.Text.{strip, lower}
use django_saas_kit.Invitations.Service.{with_email}
use django_saas_kit.Rbac.Views.{with_user_pk}
use django_saas_kit.Audit.{log}
use django_saas_kit.Models.{send_password_reset_email, Db, User}
use django_saas_kit.Base.{
  List, ◌+◌, ◌≤◌, ◌/◌, ◌⊎◌, refl, Bool, String, ℕ, some, [], ◌∷◌, ◌≡◌, ◌≢◌, true, ◌++◌, List-cases,
  inl, inr,
}
use django_saas_kit.Orm.{Orm, ok, err}
use django_saas_kit.Http.{reply, failure, Request, answer}
use django_saas_kit.Action.{multiple_objects_returned, invalid_link}
use django_saas_kit.Authentication.PasswordReset.{
  reset_link, reset_email, request_found, request_reset, ResetTokens, request_view, confirm_view,
  confirm_reset, user_from_uid, set_password,
}

module _ ⦃orm : Orm⦄ (tokens : ResetTokens) (frontend_url : String) where
  -- Where no user has the address, and where one user has it, the reply to a request is the same
  -- 200 and no user is changed; the email is queued in the second case alone. Where two users or
  -- more have it, and only then, the request raises, and writes nothing.
  pub request_view_hides :
      (now : ℕ) (email : String) (request : Request) (db : Db)
      → let found = orm.filter (with_email (lower (strip email))) db.users in
        let (r, db') = request_view tokens frontend_url now email request db in
        ((found ≡ []) × (r ≡ ok (reply 200 tt)) × (db'.users ≡ db.users) × (db'.queue ≡ db.queue))
        ⊎ ((user : User) × (found ≡ user ∷ [])
            × (r ≡ ok (reply 200 tt))
            × (db'.users ≡ db.users)
            × (db'.queue ≡ db.queue ++ reset_email tokens frontend_url now user ∷ []))
        ⊎ ((u u' : User) × (others : List User) × (found ≡ u ∷ u' ∷ others)
            × (r ≡ err multiple_objects_returned)
            × (db' ≡ db))
  unfolding request_view request_reset request_found log
  request_view_hides now email request db =
      elim (List-cases (orm.filter (with_email (lower (strip email))) db.users)) [
        | inl missing ↦ rw missing (inl (refl, refl, refl, refl))
        | inr (inl (user, one)) ↦ rw one (inr (inl (user, refl, refl, refl, refl)))
        | inr (inr (u, u', l, more)) ↦ rw more (inr (inr (u, u', l, refl, refl, refl)))
      ]

  module _ (validate_password : String → User → Bool) (make_password : String → String) where
    -- Where the uid names a user, its token is good and the password is accepted.
    abbrev pub Confirmable : ℕ → (uid token new_password : String) → User → Db → Type 0
    Confirmable now uid token new_password user db =
        ((pk : ℕ) × (tokens.urlsafe_base64_decode uid ≡ some pk)
          × (orm.filter (with_user_pk pk) db.users ≡ user ∷ []))
        × (tokens.check_token now user token ≡ true)
        × (validate_password new_password user ≡ true)

    confirmed :
        (now : ℕ) (uid token new_password : String) (user : User) (db : Db)
        → Confirmable now uid token new_password user db
        → confirm_view tokens validate_password make_password now uid token new_password db ≡ (
          ok (reply 200 tt),
          record db {
            users =
                orm.save
                  (with_user_pk user.pk)
                  (set_password (make_password new_password))
                  db.users;
          },
        )
    unfolding confirm_view confirm_reset user_from_uid answer
    confirmed now uid token new_password user db ((pk, decoded, one), good, strong) =
        rw (decoded, one, good, strong) refl

    -- A token that was made with a password is refused once the user has another one.
    outdated :
        (made now : ℕ) (user : User) (new_password : String) (db : Db)
        → (changed : User) → orm.filter (with_user_pk user.pk) db.users ≡ changed ∷ []
        → user.password ≢ changed.password
        → confirm_view tokens validate_password make_password now
            (tokens.urlsafe_base64_encode user.pk)
            (tokens.make_token made user)
            new_password
            db
          ≡ (ok (failure 400 invalid_link), db)
    unfolding confirm_view confirm_reset user_from_uid answer
    outdated made now user new_password db changed one other =
        rw (tokens.decode-encode, one, tokens.check-changed made now user changed other) refl

    confirm_once :
        (made : ℕ) (user : User) (db1 : Db)
        → orm.filter (with_user_pk user.pk) db1.users ≡ user ∷ []
        → let uid = tokens.urlsafe_base64_encode user.pk in
          let token = tokens.make_token made user in
          (now : ℕ) (new_password : String)
          → made ≤ now
          → now ≤ made + tokens.timeout
          → validate_password new_password user ≡ true
          → user.password ≢ some (make_password new_password)
          → let (r1, db2) =
              confirm_view tokens validate_password make_password now uid token new_password db1 in
            (r1 ≡ ok (reply 200 tt))
            × (orm.filter (with_user_pk user.pk) db2.users
                ≡ set_password (make_password new_password) user ∷ [])
            × ((again : ℕ) (other : String)
                → confirm_view tokens validate_password make_password again uid token other db2
                  ≡ (ok (failure 400 invalid_link), db2))
    confirm_once made user db1 stored now new_password late soon strong differs =
        let done =
          confirmed now (tokens.urlsafe_base64_encode user.pk) (tokens.make_token made user)
            new_password user db1
            (
              (user.pk, tokens.decode-encode user.pk, stored),
              tokens.check-make made now user late soon,
              strong,
            ) in
        let written =
          filter-save_self (with_user_pk user.pk) (set_password (make_password new_password))
            (λ u. refl) db1.users in
        let now_stored = rw stored at written in
        rw done (
          refl,
          now_stored,
          λ again other.
              outdated made again user other
                (record db1 {
                  users =
                      orm.save (with_user_pk user.pk) (set_password (make_password new_password))
                        db1.users;
                })
                (set_password (make_password new_password) user) now_stored differs,
        )

    -- The email that a request for the address of one user queues has a link with which, until the
    -- timeout and for an accepted password that is not hashed to the old one, this password becomes
    -- that of the user; after that the link is refused, at every time and for every password, and
    -- nothing more is written.
    pub reset_once :
        (made : ℕ) (email : String) (request : Request) (user : User) (db : Db)
        → orm.filter (with_email (lower (strip email))) db.users ≡ user ∷ []
        → orm.filter (with_user_pk user.pk) db.users ≡ user ∷ []
        → (now : ℕ) (new_password : String) → made ≤ now
        → now ≤ made + tokens.timeout
        → validate_password new_password user ≡ true
        → user.password ≢ some (make_password new_password)
        → let uid = tokens.urlsafe_base64_encode user.pk in
          let token = tokens.make_token made user in
          let (r, db1) = request_view tokens frontend_url made email request db in
          let (r1, db2) =
            confirm_view tokens validate_password make_password now uid token new_password db1 in
          (r ≡ ok (reply 200 tt))
          × (db1.queue
              ≡ db.queue
                ++ send_password_reset_email user.email
                    (get_display_name user)
                    (reset_link tokens frontend_url uid token)
                    uid
                    token
                    (tokens.timeout / 3600)
                  ∷ [])
          × ((r1 ≡ ok (reply 200 tt))
              × (orm.filter (with_user_pk user.pk) db2.users
                  ≡ set_password (make_password new_password) user ∷ [])
              × ((again : ℕ) (other : String)
                  → confirm_view tokens validate_password make_password again uid token other db2
                    ≡ (ok (failure 400 invalid_link), db2)))
    unfolding request_view request_reset request_found log
    reset_once made email request user db known stored now new_password late soon strong differs =
        rw known
          (refl, refl, confirm_once made user _ stored now new_password late soon strong differs)
