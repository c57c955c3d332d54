-- ===== src/Mail.antt =====
-- Emails: the mail server and the templates, which are Django's, and services/common/email_service.py.
-- A job acts on the database and the emails that the server has taken.
pub mod Tasks
pub mod Worker
pub mod Delivery
pub mod Once
pub mod Welcome
pub mod Samples
mod Tests
use django_saas_kit.Base.{
  ℕ, String, Bool, true, false, Option, none, some, List, [], ◌∷◌, ◌++◌, if◌then◌else◌,
}
use django_saas_kit.Orm.{Orm, Result, ok, err}
use django_saas_kit.Cache.{Cache}
use django_saas_kit.Models.{Db}
use django_saas_kit.Text.{is_blank}
use django_saas_kit.Action.{Error, after, no_template, email_refused, multiple_objects_returned}

-- What `send_mail` and `EmailMultiAlternatives` are given.
pub record Email : Type 0 where
  pub subject : String
  pub text_body : String
  pub html_body : Option String
  pub from_email : String
  pub recipients : List String

abbrev pub Context : Type 0
Context = List (String × String)

-- What becomes of an email that Django is to send. It is taken, or the call raises, before the server
-- has taken it or after that; an email for nobody is skipped.
pub data SendResult : Type 0 where
  taken refused taken_and_raised skipped : SendResult

-- Django's templates, dates and mail server, and the settings.
pub record Mailer : Type 0 where
  -- `render_to_string(template, context)`
  pub render : String → Context → String
  -- what becomes of an email at a time
  pub outcome : ℕ → Email → SendResult
  -- `strftime("%B %d, %Y")` and `str` of a number
  pub date : ℕ → String
  pub str : ℕ → String
  pub default_from_email : String
  pub frontend_url : String
  pub billing_portal_url : Option String

module _ ⦃orm : Orm⦄ ⦃cache : Cache String⦄ where
  -- The database, the cache of the idempotency keys, and the emails that the server has taken.
  pub record Post : Type 0 where
    pub db : Db
    pub store : cache.Store
    pub sent : List Email

  abbrev pub Job : Type 0 → Type 0
  Job A = Post → Result Error A × Post

  infixl 5 ◌>>=◌ ◌>>◌
  abbrev pub ◌>>=◌ : {A B : Type 0} → Job A → (A → Job B) → Job B
  ◌>>=◌ m f s = after (m s) f

  abbrev pub ◌>>◌ : {A B : Type 0} → Job A → Job B → Job B
  m >> k = m >>= λ _. k

  abbrev pub pure : {A : Type 0} → A → Job A
  pure a s = (ok a, s)

  abbrev pub raise : {A : Type 0} → Error → Job A
  raise e s = (err e, s)

  -- a query of the database
  abbrev pub query : {A : Type 0} → (Db → A) → Job A
  query f s = (ok (f s.db), s)

  -- `objects.get(...)` on the rows that its lookup selects
  abbrev pub only : {R : Type 0} → Error → List R → Job R
  only e [] s = (err e, s)
  only e (r ∷ []) s = (ok r, s)
  only e (r ∷ r' ∷ l) s = (err multiple_objects_returned, s)

  abbrev pub deliver_email : SendResult → Email → Job Unit
  deliver_email taken email post = (ok tt, record post { sent = post.sent ++ email ∷ [] })
  deliver_email refused email post = (err email_refused, post)
  deliver_email taken_and_raised email post =
      (err email_refused, record post { sent = post.sent ++ email ∷ [] })
  deliver_email skipped email post = (ok tt, post)

  module _ (mailer : Mailer) (now : ℕ) where
    -- `send_mail(..., fail_silently=False)`
    abbrev pub send_mail : Email → Job Unit
    send_mail email = deliver_email (mailer.outcome now email) email

    -- a template that is named, and by a text that is not empty
    abbrev pub given_text : Option String → Option String
    given_text none = none
    given_text (some template) = if is_blank template then none else some template

    -- `EmailService.send`, where one template at least is given
    abbrev pub compose_email :
        (subject : String) (recipients : List String) (template_html template_txt : Option String)
        → Context
        → (sender : String) → Email
    compose_email subject recipients template_html template_txt context sender = record {
      subject = subject;
      text_body = elim template_txt [ none ↦ "" | some t ↦ mailer.render t context ];
      html_body = elim template_html [ none ↦ none | some t ↦ some (mailer.render t context) ];
      from_email = sender;
      recipients = recipients;
    }

    -- `from_email or settings.DEFAULT_FROM_EMAIL`
    abbrev pub sender_of : Option String → String
    sender_of from_email = elim (given_text from_email) [
      | none ↦ mailer.default_from_email
      | some sender ↦ sender
    ]

    send_templates :
        (subject : String) (recipients : List String) (template_html template_txt : Option String)
        → Context
        → (sender : String) → Job Unit
    send_templates subject recipients none none context sender = raise no_template
    send_templates subject recipients none (some txt) context sender =
        send_mail (compose_email subject recipients none (some txt) context sender)
    send_templates subject recipients (some html) txt context sender =
        send_mail (compose_email subject recipients (some html) txt context sender)

    -- `EmailService.send`, for a list of recipients; one address is a list of it
    unfoldable pub send_email :
        (subject : String) (to : List String) (template_html template_txt : Option String)
        → Context
        → (from_email : Option String) → Job Unit
    unfolding send_templates
    send_email subject to template_html template_txt context from_email =
        send_templates subject to (given_text template_html) (given_text template_txt) context
          (sender_of from_email)
