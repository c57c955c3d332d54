-- ===== src/Billing/Told.antt =====
-- From a failed payment to the email in the inbox of the tenant's owner.
use django_saas_kit.Base.{ℕ, String, false, some, List, [], ◌∷◌, ◌≡◌, refl}
use django_saas_kit.Orm.{Orm}
use django_saas_kit.Orm.Queries.{first}
use django_saas_kit.Cache.{Cache}
use django_saas_kit.Text.{is_blank}
use django_saas_kit.Models.{
  User, Tenant, UserTenantRole, Subscription, StripeObject, Task, send_dunning_email,
}
use django_saas_kit.Rbac.Permissions.{with_pk}
use django_saas_kit.Rbac.Views.{with_user_pk}
use django_saas_kit.Billing.Access.{Holds}
use django_saas_kit.Billing.Webhook.{stripe_webhook_view, Constructed, event, with_event_id}
use django_saas_kit.Billing.Delivered.{first_delivery, logged_and_queued, worked}
use django_saas_kit.Mail.{Email, Mailer, Post}
use django_saas_kit.Mail.Tasks.{owner_in, dunning_email, mail_dunning}
use django_saas_kit.Mail.Worker.{work, perform}
use django_saas_kit.Mail.Delivery.{TakenAt, with_sent, with_retries-Sends, mail_dunning-Sends}

module _ ⦃orm : Orm⦄ ⦃cache : Cache String⦄ (mailer : Mailer) where
  -- The queue without its first task.
  abbrev pub dequeued : List Task → Post → Post
  dequeued rest post = record post { db = record post.db { queue = rest } }

  -- The turn of a worker at a dunning email.
  dunning_turn :
      (clock : ℕ → ℕ) (k tenant_id : ℕ) (rest : List Task) (tenant : Tenant) (role : UserTenantRole)
      (user : User) (post : Post)
      → post.db.queue ≡ send_dunning_email tenant_id ∷ rest
      → orm.filter (with_pk tenant_id) post.db.tenants ≡ tenant ∷ []
      → first (owner_in tenant.pk) post.db.roles ≡ some role
      → orm.filter (with_user_pk role.user) post.db.users ≡ user ∷ []
      → TakenAt mailer clock (dunning_email mailer tenant user (dequeued rest post).db) k
      → work mailer clock post
        ≡ with_sent mailer
            (dunning_email mailer tenant user (dequeued rest post).db)
            (dequeued rest post)
  unfolding work perform
  dunning_turn clock k tenant_id rest tenant role user post waits known owned named taken =
      rw waits (
        with_retries-Sends mailer clock k (dunning_email mailer tenant user (dequeued rest post).db)
          _ (λ now. mail_dunning mailer now tenant_id) (dequeued rest post)
          (mail_dunning-Sends mailer tenant_id tenant role user (dequeued rest post) known owned
            named)
          taken)

module _ ⦃orm : Orm⦄ {Payload : Type 0} (construct_event : Payload → String → String → Constructed)
    (webhook_secret : String) ⦃cache : Cache String⦄ (mailer : Mailer) where
  -- The first delivery about a failed payment of a known subscription, with an empty queue, is
  -- followed by two turns of a worker. Where the mail server is down in the first runs of the second
  -- task and then takes emails, in one of its four runs, the first turn sends nothing and the second
  -- one sends the dunning email, to the first owner of the subscription's tenant alone, empties the
  -- queue and changes nothing else.
  pub failed_payment_told :
      (event_id id sig_header : String) (payload : Payload) (data' : StripeObject)
      (sub : Subscription) (tenant : Tenant) (role : UserTenantRole) (user : User) (post : Post)
      (clock later : ℕ → ℕ) (k : ℕ)
      → is_blank webhook_secret ≡ false
      → construct_event payload sig_header webhook_secret
        ≡ event event_id "invoice.payment_failed" data'
      → orm.filter (with_event_id event_id) post.db.webhook_events ≡ []
      → post.db.queue ≡ []
      → data'.subscription ≡ some id
      → is_blank id ≡ false
      → Holds id sub post.db
      → orm.filter (with_pk sub.tenant) post.db.tenants ≡ tenant ∷ []
      → first (owner_in tenant.pk) post.db.roles ≡ some role
      → orm.filter (with_user_pk role.user) post.db.users ≡ user ∷ []
      → ((email : Email) → TakenAt mailer later email k)
      → let (r, db1) =
          stripe_webhook_view construct_event webhook_secret sig_header payload post.db in
        let post2 = work mailer clock (record post { db = db1 }) in
        let email = dunning_email mailer tenant user (dequeued mailer [] post2).db in
        (work mailer later post2 ≡ with_sent mailer email (dequeued mailer [] post2))
        × (post2.sent ≡ post.sent)
        × (email.recipients ≡ user.email ∷ [])
  unfolding stripe_webhook_view dunning_email
  failed_payment_told event_id id sig_header payload data' sub tenant role user post clock later k
        secret first_time new idle given named held known owned of_owner taken =
      let e1 =
        first_delivery construct_event webhook_secret event_id "invoice.payment_failed" sig_header
          payload data' post.db secret first_time refl new idle in
      let post1 : Post = record post {
        db =
            logged_and_queued construct_event webhook_secret event_id "invoice.payment_failed" data'
              post.db;
      } in
      let e2 =
        worked construct_event webhook_secret mailer event_id id data' sub clock post1 post.db refl
          given named held in
      rw (e1, e2)
        (
          dunning_turn mailer later k sub.tenant [] tenant role user _ refl known owned of_owner
              (taken _),
          refl,
          refl,
        )
