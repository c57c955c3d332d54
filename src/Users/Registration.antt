-- ===== src/Users/Registration.antt =====
-- When an account is created, and what creating it writes.
use django_saas_kit.Invitations.Service.{with_email}
use django_saas_kit.Orm.Queries.{exists}
use django_saas_kit.Text.{contains_char, strip, lower, is_blank}
use django_saas_kit.Orm.{err, ok, Orm}
use django_saas_kit.Base.{
  true, Bool-cases, inl, inr, Bool-cases, true, false, not, ◌||◌, ◌⊎◌, ◌++◌, ℕ, Bool, String, refl,
  ◌≡◌, [], ◌∷◌,
}
use django_saas_kit.Models.{Db, User, send_welcome_email}
use django_saas_kit.Users.Service.{create_user, new_user, with_username, CreateUserInput}
use django_saas_kit.Action.{
  Error, invalid_email, username_required, password_required, weak_password, username_taken,
  email_taken, not_clean,
}

module _ ⦃orm : Orm⦄ (validate_password : (password username email : String) → Bool)
    (make_password : String → String) (full_clean : User → Db → Bool) (pk : ℕ)
    (input : CreateUserInput) (db : Db) where
  abbrev account : User
  account = new_user validate_password make_password full_clean pk input

  -- The email and the username are well-formed and not taken, and Django's validators pass.
  abbrev pub Registrable : Type 0
  Registrable =
      ((is_blank (lower (strip input.email))
          || not (contains_char b'@' (lower (strip input.email))))
        ≡ false)
      × (is_blank (strip input.username) ≡ false)
      × (is_blank input.password ≡ false)
      × (validate_password input.password (strip input.username) (lower (strip input.email)) ≡ true)
      × (exists (with_username (strip input.username)) db.users ≡ false)
      × (exists (with_email (lower (strip input.email))) db.users ≡ false)
      × (full_clean account db ≡ true)

  -- An account is created exactly where it may be: then one user with the normalised names and the
  -- hashed password is stored, and one welcome email is queued, and nothing else is written.
  -- Otherwise the call raises, and nothing is written or queued.
  pub create_user_exact :
      (Registrable
        × (create_user validate_password make_password full_clean pk input db ≡ (
          ok account,
          record db {
            users = orm.create account db.users;
            queue = db.queue ++ send_welcome_email pk ∷ [];
          },
        )))
      ⊎ ((¬ Registrable)
          × (e : Error) × (create_user validate_password make_password full_clean pk input db
              ≡ (err e, db)))
  unfolding create_user
  create_user_exact =
      elim (Bool-cases (
        is_blank (lower (strip input.email))
        || not (contains_char b'@' (lower (strip input.email))))) [
          | inl bad ↦ inr ((λ h. cc (bad, h.0)), invalid_email, rw bad)
          | inr email ↦ elim (Bool-cases (is_blank (strip input.username))) [
            | inl blank ↦ inr ((λ h. cc (blank, h.1)), username_required, rw (email, blank))
            | inr username ↦ elim (Bool-cases (is_blank input.password)) [
              | inl blank ↦
                  inr ((λ h. cc (blank, h.2)), password_required, rw (email, username, blank))
              | inr password ↦ after_input email username password
            ]
          ]
        ]
    where
      after_input :
          (is_blank (lower (strip input.email))
              || not (contains_char b'@' (lower (strip input.email))))
            ≡ false
          → is_blank (strip input.username) ≡ false
          → is_blank input.password ≡ false
          → (Registrable
              × (create_user validate_password make_password full_clean pk input db ≡ (
                ok account,
                record db {
                  users = orm.create account db.users;
                  queue = db.queue ++ send_welcome_email pk ∷ [];
                },
              )))
            ⊎ ((¬ Registrable)
                × (e : Error) × (create_user validate_password make_password full_clean pk input db
                    ≡ (err e, db)))
      after_input email username password =
          elim (Bool-cases
            (validate_password input.password (strip input.username) (lower (strip input.email)))) [
              | inr weak ↦
                  inr ((λ h. cc (weak, h.3)), weak_password, rw (email, username, password, weak))
              | inl strong ↦
                  elim (Bool-cases (exists (with_username (strip input.username)) db.users)) [
                    | inl used ↦ inr (
                      (λ h. cc (used, h.4)),
                      username_taken,
                      rw (email, username, password, strong, used),
                    )
                    | inr free ↦
                        elim (Bool-cases
                          (exists (with_email (lower (strip input.email))) db.users)) [
                            | inl taken ↦ inr (
                              (λ h. cc (taken, h.5)),
                              email_taken,
                              rw (email, username, password, strong, free, taken),
                            )
                            | inr open_email ↦ elim (Bool-cases (full_clean account db)) [
                              | inr dirty ↦ inr (
                                (λ h. cc (dirty, h.6)),
                                not_clean,
                                rw
                                    (
                                      email, username, password, strong, free, open_email,
                                      orm.atomic_lem, dirty,
                                    )
                                    refl,
                              )
                              | inl clean ↦ inl (
                                (email, username, password, strong, free, open_email, clean),
                                rw
                                    (
                                      email, username, password, strong, free, open_email,
                                      orm.atomic_lem, clean,
                                    )
                                    refl,
                              )
                            ]
                          ]
                  ]
            ]
