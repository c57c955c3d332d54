-- ===== src/Mail/Delivery.antt =====
-- What a task that sends an email does, and what is sent when the server refuses it for a while.
use django_saas_kit.Base.{ℕ, String, some, [], ◌∷◌, ◌++◌, ◌≡◌, ◌≤◌, ◌<◌, refl, ap}
use django_saas_kit.Orm.{Orm, ok, err}
use django_saas_kit.Orm.Queries.{first}
use django_saas_kit.Cache.{Cache}
use django_saas_kit.Text.{append}
use django_saas_kit.Models.{User, Tenant, UserTenantRole}
use django_saas_kit.Action.{email_refused}
use django_saas_kit.Rbac.Permissions.{with_pk}
use django_saas_kit.Rbac.Views.{with_user_pk}
use django_saas_kit.Celery.{retrying_recovers}
use django_saas_kit.Mail.{refused, taken, Email, Mailer, Post, Job}
use django_saas_kit.Mail.Tasks.{owner_in, mail_dunning, dunning_email, to_owner}
use django_saas_kit.Mail.Worker.{email_retries, with_retries}

-- The server takes an email in the run with so many retries left, and refuses it before.
abbrev pub TakenAt : Mailer → (clock : ℕ → ℕ) → Email → ℕ → Type 0
TakenAt mailer clock email k =
    (k ≤ email_retries)
    × (mailer.outcome (clock k) email ≡ taken)
    × ((j : ℕ) → k < j → j ≤ email_retries → mailer.outcome (clock j) email ≡ refused)

module _ ⦃orm : Orm⦄ ⦃cache : Cache String⦄ (mailer : Mailer) where
  -- The state with an email more.
  abbrev pub with_sent : Email → Post → Post
  with_sent email post = record post { sent = post.sent ++ email ∷ [] }

  -- A run that sends one email, or raises where the server refuses it.
  abbrev pub Sends : {A : Type 0} → Email → A → (ℕ → Job A) → Post → Type 0
  Sends email a run post =
      (now : ℕ)
      → (mailer.outcome now email ≡ taken → run now post ≡ (ok a, with_sent email post))
        × (mailer.outcome now email ≡ refused → run now post ≡ (err email_refused, post))

  -- A task whose email the server takes in one of the runs is sent once.
  pub with_retries-Sends :
      {A : Type 0} (clock : ℕ → ℕ) (k : ℕ) (email : Email) (a : A) (run : ℕ → Job A) (post : Post)
      → Sends email a run post
      → TakenAt mailer clock email k
      → with_retries mailer clock run post ≡ with_sent email post
  with_retries-Sends clock k email a run post sends (within, accepted, down) =
      ap (λ m. m.1)
        (retrying_recovers (λ left. run (clock left)) email_retries k post (with_sent email post) a
          within (λ j below le. (email_refused, (sends (clock j)).1 (down j below le)))
          ((sends (clock k)).0 accepted))

  pub mail_dunning-Sends :
      (tenant_id : ℕ) (tenant : Tenant) (role : UserTenantRole) (user : User) (post : Post)
      → orm.filter (with_pk tenant_id) post.db.tenants ≡ tenant ∷ []
      → first (owner_in tenant.pk) post.db.roles ≡ some role
      → orm.filter (with_user_pk role.user) post.db.users ≡ user ∷ []
      → Sends
          (dunning_email mailer tenant user post.db)
          (append "dunning" (append ":sent:" (mailer.str tenant_id)))
          (λ now. mail_dunning mailer now tenant_id)
          post
  unfolding mail_dunning to_owner
  mail_dunning-Sends tenant_id tenant role user post known owned named now = (
    (λ accepted. rw (known, owned, named, accepted) refl),
    (λ down. rw (known, owned, named, down) refl),
  )
