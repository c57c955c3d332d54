-- ===== src/Users/Command.antt =====
-- apps/users/management/commands/delete_user_data.py: the erasure from the command line. What the
-- operator types is an argument; what is printed is left out.
use django_saas_kit.Text.{strip, lower}
use django_saas_kit.Base.{
  Bool, Option, String, ℕ, none, some, true, false, not, str_eq, if◌then◌else◌, ◌≡◌, refl, inl, inr,
  List-cases,
}
use django_saas_kit.Orm.{Orm}
use django_saas_kit.Models.{Db, User}
use django_saas_kit.Action.{◌>>=◌, Action, gets, pure, the_only, user_not_found}
use django_saas_kit.Users.Gdpr.{anonymize, hard_delete, ErasureResult}
use django_saas_kit.Rbac.Views.{with_user_pk}

-- Whether the erasure goes on: without a prompt, or after `yes`.
abbrev pub is_confirmed : (no_input : Bool) → (typed : String) → Bool
is_confirmed no_input typed = if no_input then true else str_eq (lower (strip typed)) "yes"

module _ ⦃orm : Orm⦄ (tag : String) (hard no_input : Bool) (typed : String) where
  -- `handle` for the user that it has found; none where it aborts
  unfoldable pub erase_found : User → Action (Option ErasureResult)
  erase_found user =
      if not (is_confirmed no_input typed)
      then pure none
      else ((if hard then hard_delete user else anonymize tag user) >>= λ result.
          pure (some result))

  -- `Command.handle`
  unfoldable pub delete_user_data : (user_id : ℕ) → Action (Option ErasureResult)
  unfolding erase_found
  delete_user_data user_id =
      gets (λ db. orm.filter (with_user_pk user_id) db.users)
      >>= the_only user_not_found
      >>= erase_found

  -- Without a confirmation nothing is written.
  delete_user_data-unconfirmed :
      (user_id : ℕ) (db : Db)
      → is_confirmed no_input typed ≡ false
      → (delete_user_data user_id db).1 ≡ db
  unfolding delete_user_data erase_found
  delete_user_data-unconfirmed user_id db cancelled =
      elim (List-cases (orm.filter (with_user_pk user_id) db.users)) [
        | inl missing ↦ rw missing refl
        | inr (inl (user, one)) ↦ rw (one, erase_found, cancelled) refl
        | inr (inr (u, u', l, more)) ↦ rw more refl
      ]
