-- ===== src/Billing/Tests.antt =====
-- Runs of the plan limits, the event handlers and the webhook on concrete rows.

use django_saas_kit.Billing.Delivered.{failed_payment_once}
use django_saas_kit.Mail.Worker.{work}
use django_saas_kit.Mail.Tasks.{owner_in, dunning_email}
use django_saas_kit.Mail.Samples.{office, post_of, every_ten, office_recovers}
use django_saas_kit.Mail.Delivery.{with_sent}
use django_saas_kit.Cache.{local_memory}
use django_saas_kit.Billing.Told.{failed_payment_told, dequeued}
use django_saas_kit.Rbac.Permissions.{with_pk}
use django_saas_kit.Rbac.Views.{with_user_pk}
use django_saas_kit.Orm.Queries.{first}
use django_saas_kit.Http.{reply}
use django_saas_kit.Fixtures.{small_db, sub_acme, acme, alice, role_row}
use django_saas_kit.Billing.Access.{is_access_allowed, Holds}
use django_saas_kit.Billing.Deliveries.{deliveries-IsOnce, IsOnce, task_count, deliveries}
use django_saas_kit.Billing.Webhook.{
  duplicate, queued, event, with_event_id, Constructed, stripe_webhook_view,
}
use django_saas_kit.Billing.Service.{on_failed, process_event}
use django_saas_kit.Billing.Isolation.{process_event-Keeps, Keeps}
use django_saas_kit.Models.{StripeObject, send_dunning_email, Subscription, Db}
use django_saas_kit.Orm.{ok, memory}
use django_saas_kit.Base.{true, ◌≤◌, arith, String, select, [], ◌∷◌, refl, ◌≡◌, none, some}

-- An object about the subscription of `acme`.
abbrev about_acme : StripeObject
about_acme = record {
  id = some "sub_acme";
  customer = some "cus_acme";
  status = none;
  subscription = some "sub_acme";
  cancel_at_period_end = none;
  current_period_start = none;
  current_period_end = none;
  trial_end = none;
  items = none;
}

acme_held : Holds "sub_acme" sub_acme small_db
unfolding select
acme_held = refl

-- The subscription of `globex`, beside that of `acme`.
abbrev sub_globex : Subscription
sub_globex = record sub_acme {
  pk = 8;
  tenant = 20;
  stripe_customer_id = "cus_globex";
  stripe_subscription_id = some "sub_globex";
}

abbrev two_subs : Db
two_subs = record small_db { subscriptions = sub_acme ∷ sub_globex ∷ [] }

globex_kept : Keeps sub_globex two_subs
unfolding select
globex_kept = refl

process_event-Keeps_example :
    Keeps sub_globex (process_event 100 "invoice.payment_failed" about_acme two_subs).1
process_event-Keeps_example =
    process_event-Keeps sub_globex 100 "invoice.payment_failed" about_acme two_subs refl globex_kept

-- Payloads are event ids here, all of a type that is handled.
abbrev construct : String → String → String → Constructed
construct payload sig_header secret = event payload "invoice.payment_failed" about_acme

none_yet : IsOnce small_db
unfolding select task_count
none_yet = record { logged = λ id. omega arith; single = λ id. omega arith }

deliveries-IsOnce_example :
    let db' = deliveries construct "whsec" (("sig", "e1") ∷ ("sig", "e1") ∷ []) small_db in
    IsOnce db' × (task_count "e1" db'.queue ≤ 1)
deliveries-IsOnce_example =
    deliveries-IsOnce construct "whsec" (("sig", "e1") ∷ ("sig", "e1") ∷ []) "e1" small_db none_yet

no_event_yet : memory.filter (with_event_id "e1") small_db.webhook_events ≡ []
unfolding select
no_event_yet = refl

failed_payment_once_example :
    let (r, db1) = stripe_webhook_view construct "whsec" "sig" "e1" small_db in
    let db2 = (work office (λ left. 100) (post_of db1)).db in
    (r ≡ ok (reply 200 queued))
    × Holds "sub_acme" (on_failed 100 sub_acme) db2
    × (is_access_allowed 500 (on_failed 100 sub_acme) ≡ true)
    × (db2.queue ≡ send_dunning_email 10 ∷ [])
    × (stripe_webhook_view construct "whsec" "sig'" "e1" db2 ≡ (ok (reply 200 duplicate), db2))
failed_payment_once_example =
    failed_payment_once construct "whsec" office "e1" "sub_acme" "sig" "sig'" "e1" "e1" about_acme
      sub_acme (post_of small_db) (λ left. 100) 500 refl refl refl no_event_yet refl refl refl
      acme_held

acme_named : memory.filter (with_pk 10) small_db.tenants ≡ acme ∷ []
unfolding select
acme_named = refl

alice_owns : first (owner_in 10) small_db.roles ≡ some (role_row alice acme "owner")
unfolding select
alice_owns = refl

alice_named : memory.filter (with_user_pk 1) small_db.users ≡ alice ∷ []
unfolding select
alice_named = refl

failed_payment_told_example :
    let (r, db1) = stripe_webhook_view construct "whsec" "sig" "e1" small_db in
    let post2 = work office (λ left. 100) (post_of db1) in
    let email = dunning_email office acme alice (dequeued office [] post2).db in
    (work office every_ten post2 ≡ with_sent office email (dequeued office [] post2))
    × (post2.sent ≡ [])
    × (email.recipients ≡ "alice@acme.io" ∷ [])
failed_payment_told_example =
    failed_payment_told construct "whsec" office "e1" "sub_acme" "sig" "e1" about_acme sub_acme acme
      (role_row alice acme "owner") alice (post_of small_db) (λ left. 100) every_ten 2 refl refl
      no_event_yet refl refl refl acme_held acme_named alice_owns alice_named office_recovers
