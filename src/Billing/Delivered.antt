-- ===== src/Billing/Delivered.antt =====
-- From a delivery of Stripe to the subscription: the webhook, the queue, the worker and the service.
use django_saas_kit.Mail.{Post, Mailer}
use django_saas_kit.Cache.{Cache}
use django_saas_kit.Rbac.Service.{is_in}
use django_saas_kit.Orm.Queries.{filter-create}
use django_saas_kit.Text.{is_blank}
use django_saas_kit.Base.{
  ap, ◌++◌, String, ℕ, [], ◌∷◌, ◌≡◌, refl, true, false, some, eq_iff, ltb, ◌+◌, ◌*◌,
}
use django_saas_kit.Orm.{Orm, ok}
use django_saas_kit.Celery.{retrying-ok}
use django_saas_kit.Mail.{Mailer, Post}
use django_saas_kit.Mail.Worker.{work, perform}
use django_saas_kit.Cache.{Cache}
use django_saas_kit.Http.{reply}
use django_saas_kit.Models.{Db, StripeObject, Subscription, handle_stripe_event, send_dunning_email}
use django_saas_kit.Billing.Webhook.{
  handled_events, stripe_webhook_view, Constructed, event, queued, duplicate, with_event_id,
  deliver, queue_once,
}
use django_saas_kit.Billing.Worker.{run_event, max_retries}
use django_saas_kit.Billing.Access.{is_access_allowed, Holds, change-Holds, Holds-save_sub}
use django_saas_kit.Billing.Service.{
  dunning, save_sub, process_event, on_failed, on_payment_failed, handler_of,
}

module _ ⦃orm : Orm⦄ {Payload : Type 0} (construct_event : Payload → String → String → Constructed)
    (webhook_secret : String) where
  -- The database that the first delivery of an event leaves, where the queue was empty.
  abbrev pub logged_and_queued : String → String → StripeObject → Db → Db
  logged_and_queued id event_type data' db = record db {
    webhook_events =
        orm.create (record { stripe_event_id = id; event_type = event_type }) db.webhook_events;
    queue = handle_stripe_event id event_type data' ∷ [];
  }

  pub first_delivery :
      (id event_type sig_header : String) (payload : Payload) (data' : StripeObject) (db : Db)
      → is_blank webhook_secret ≡ false
      → construct_event payload sig_header webhook_secret ≡ event id event_type data'
      → is_in event_type handled_events ≡ true
      → orm.filter (with_event_id id) db.webhook_events ≡ []
      → db.queue ≡ []
      → stripe_webhook_view construct_event webhook_secret sig_header payload db
        ≡ (ok (reply 200 queued), logged_and_queued id event_type data' db)
  unfolding stripe_webhook_view deliver queue_once
  first_delivery id event_type sig_header payload data' db secret genuine handled new idle =
      rw (secret, genuine, handled, new, queue_once, idle) refl

  -- The database after a worker's run of the task of a failed payment.
  abbrev pub failure_stored : ℕ → String → StripeObject → Subscription → Db → Db
  failure_stored now event_id data' sub db =
      let stored : Db =
        save_sub sub (on_failed now)
          (record (logged_and_queued event_id "invoice.payment_failed" data' db) { queue = [] }) in
      record stored { queue = send_dunning_email sub.tenant ∷ [] }

  payment_failed_run :
      (now : ℕ) (id : String) (data' : StripeObject) (sub : Subscription) (db : Db)
      → data'.subscription ≡ some id
      → is_blank id ≡ false
      → Holds id sub db
      → process_event now "invoice.payment_failed" data' db ≡ (
        ok tt,
        record (save_sub sub (on_failed now) db) {
          queue = db.queue ++ send_dunning_email sub.tenant ∷ [];
        },
      )
  unfolding process_event handler_of on_payment_failed dunning
  payment_failed_run now id data' sub db named given held =
      rw (named, given, change-Holds id (on_failed now) sub db held) refl

  module _ ⦃cache : Cache String⦄ (mailer : Mailer) where
    pub worked :
        (event_id id : String) (data' : StripeObject) (sub : Subscription) (clock : ℕ → ℕ)
        (post : Post) (db : Db)
        → post.db ≡ logged_and_queued event_id "invoice.payment_failed" data' db
        → data'.subscription ≡ some id
        → is_blank id ≡ false
        → Holds id sub db
        → work mailer clock post
          ≡ record post { db = failure_stored (clock max_retries) event_id data' sub db }
    unfolding work perform run_event
    worked event_id id data' sub clock post db here named given held =
        let db0 : Db = record (logged_and_queued event_id "invoice.payment_failed" data' db) {
          queue = [];
        } in
        rw here (
          ap (λ m. record post { db = m.1 })
            (retrying-ok (λ left. process_event (clock left) "invoice.payment_failed" data')
              max_retries db0 _ tt
              (payment_failed_run (clock max_retries) id data' sub db0 named given held)))

    -- A delivery about a failed payment of a known subscription, the first one of its event and with
    -- an empty queue, is queued, and once a worker has taken the task, the subscription has its grace
    -- period from the time of the run on, its tenant keeps access for exactly the seven days, and one
    -- dunning email is what the queue holds; a delivery of the same event after that is answered as a
    -- duplicate and changes nothing, so that the grace period is not started again.
    pub failed_payment_once :
        (event_id id sig_header later_header : String) (payload later : Payload)
        (data' : StripeObject) (sub : Subscription) (post : Post) (clock : ℕ → ℕ) (time : ℕ)
        → is_blank webhook_secret ≡ false
        → construct_event payload sig_header webhook_secret
          ≡ event event_id "invoice.payment_failed" data'
        → construct_event later later_header webhook_secret
          ≡ event event_id "invoice.payment_failed" data'
        → orm.filter (with_event_id event_id) post.db.webhook_events ≡ []
        → post.db.queue ≡ []
        → data'.subscription ≡ some id
        → is_blank id ≡ false
        → Holds id sub post.db
        → let (r, db1) =
            stripe_webhook_view construct_event webhook_secret sig_header payload post.db in
          let db2 = (work mailer clock (record post { db = db1 })).db in
          let now = clock max_retries in
          (r ≡ ok (reply 200 queued))
          × Holds id (on_failed now sub) db2
          × (is_access_allowed time (on_failed now sub) ≡ ltb time (now + 7 * 86400))
          × (db2.queue ≡ send_dunning_email sub.tenant ∷ [])
          × (stripe_webhook_view construct_event webhook_secret later_header later db2
              ≡ (ok (reply 200 duplicate), db2))
    unfolding stripe_webhook_view deliver queue_once is_access_allowed
    failed_payment_once event_id id sig_header later_header payload later data' sub post clock time
          secret first_time again new idle named given held =
        let e1 =
          first_delivery event_id "invoice.payment_failed" sig_header payload data' post.db secret
            first_time refl new idle in
        let post1 : Post = record post {
          db = logged_and_queued event_id "invoice.payment_failed" data' post.db;
        } in
        let e2 = worked event_id id data' sub clock post1 post.db refl named given held in
        rw (e1, e2)
          (
            refl,
            Holds-save_sub id (on_failed (clock max_retries)) sub post.db (λ s. refl) held,
            refl,
            refl,
            rw (secret, again, filter-create, (eq_iff event_id event_id).1 refl, queue_once) refl,
          )
