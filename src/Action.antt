-- ===== src/Action.antt =====
-- A method that reads and writes the database and may raise. What was written before a raise stays
-- written, unless a `transaction.atomic()` block is left by it.
use django_saas_kit.Base.{Bool, true, false, List, [], ◌∷◌}
use django_saas_kit.Orm.{Orm, Result, ok, err}
use django_saas_kit.Models.{Db}

-- What is raised; one constructor for each `raise` of the services.
pub data Error : Type 0 where
  invalid_role : Error
  already_member : Error
  pending_exists : Error
  plan_limit_exceeded : Error
  invitation_not_found : Error
  invitation_used : Error
  invitation_expired : Error
  invitation_not_pending : Error
  not_authenticated : Error
  permission_denied : Error
  tenant_context_required : Error
  invalid_input : Error
  http404 : Error
  does_not_exist : Error
  multiple_objects_returned : Error
  slug_empty slug_invalid domain_empty : Error
  invalid_email username_required password_required weak_password : Error
  username_taken email_taken not_clean : Error
  code_required two_factor_enabled setup_not_initiated invalid_code two_factor_not_enabled : Error
  session_and_code_required invalid_session user_not_found : Error
  authentication_failed malformed_link invalid_link : Error
  unsupported_provider token_validation_failed no_provider_email unverified_email : Error
  provider_required access_token_required : Error
  notification_not_found : Error
  account_exists : Error
  -- of the model: a loop that has not ended within its fuel
  out_of_fuel : Error
  schema_taken domain_taken : Error
  no_template email_refused : Error
  -- of the database: a unique column would repeat a value
  integrity_error : Error
  stop_iteration : Error

-- The classes of services/exceptions.py; `other` is every other exception.
pub data ErrorClass : Type 0 where
  validation conflict plan_limit not_found other : ErrorClass

abbrev pub class_of : Error → ErrorClass
class_of invalid_role = validation
class_of already_member = conflict
class_of pending_exists = conflict
class_of plan_limit_exceeded = plan_limit
class_of invitation_not_found = not_found
class_of invitation_used = not_found
class_of invitation_expired = validation
class_of invitation_not_pending = validation
class_of not_authenticated = other
class_of permission_denied = other
class_of tenant_context_required = other
class_of invalid_input = other
class_of http404 = other
class_of does_not_exist = other
class_of multiple_objects_returned = other
class_of code_required = other
class_of two_factor_enabled = other
class_of setup_not_initiated = other
class_of invalid_code = other
class_of two_factor_not_enabled = other
class_of session_and_code_required = other
class_of invalid_session = other
class_of user_not_found = other
class_of authentication_failed = other
class_of malformed_link = validation
class_of invalid_link = validation
class_of unsupported_provider = validation
class_of token_validation_failed = validation
class_of no_provider_email = validation
class_of unverified_email = validation
class_of provider_required = other
class_of access_token_required = other
class_of notification_not_found = validation
class_of account_exists = conflict
class_of out_of_fuel = other
class_of slug_empty = validation
class_of invalid_email = validation
class_of username_required = validation
class_of password_required = validation
class_of weak_password = validation
class_of username_taken = conflict
class_of email_taken = conflict
class_of not_clean = other
class_of slug_invalid = validation
class_of domain_empty = validation
class_of schema_taken = conflict
class_of domain_taken = conflict
class_of no_template = other
class_of email_refused = other
class_of integrity_error = other
class_of stop_iteration = other

abbrev pub after :
    {A B S : Type 0} → Result Error A × S → (A → S → Result Error B × S) → Result Error B × S
after (ok a, s) f = f a s
after (err e, s) f = (err e, s)

module _ ⦃orm : Orm⦄ where
  abbrev pub Action : Type 0 → Type 0
  Action A = Db → Result Error A × Db

  infixl 5 ◌>>=◌ ◌>>◌
  abbrev pub ◌>>=◌ : {A B : Type 0} → Action A → (A → Action B) → Action B
  ◌>>=◌ m f s = after (m s) f

  abbrev pub ◌>>◌ : {A B : Type 0} → Action A → Action B → Action B
  m >> k = m >>= λ _. k

  abbrev pub pure : {A : Type 0} → A → Action A
  pure a s = (ok a, s)

  abbrev pub raise : {A : Type 0} → Error → Action A
  raise e s = (err e, s)

  abbrev pub gets : {A : Type 0} → (Db → A) → Action A
  gets f s = (ok (f s), s)

  abbrev pub modify : (Db → Db) → Action Unit
  modify f s = (ok tt, f s)

  abbrev pub raise_if : Bool → Error → Action Unit
  raise_if true e s = (err e, s)
  raise_if false e s = (ok tt, s)

  -- `objects.get(...)` on the rows that its lookup selects, `e` standing for `DoesNotExist`
  abbrev pub the_only : {R : Type 0} → Error → List R → Action R
  the_only e [] s = (err e, s)
  the_only e (r ∷ []) s = (ok r, s)
  the_only e (r ∷ r' ∷ l) s = (err multiple_objects_returned, s)
