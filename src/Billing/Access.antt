-- ===== src/Billing/Access.antt =====
-- `Subscription.is_access_allowed`, and the access that a tenant has after each of Stripe's events.
use django_saas_kit.Text.{is_blank}
use django_saas_kit.Audit.{log}
use django_saas_kit.Orm.Queries.{filter-save_stable}
use django_saas_kit.Billing.Service.{
  on_paid, on_canceled, on_payment_succeeded, on_subscription_canceled, handler_of, process_event,
  save_sub, past_due, trialing, active, with_sub_pk, with_stripe_id, change,
}
use django_saas_kit.Base.{
  ==_refl, true, none, ◌||◌, [], ltb, ◌∷◌, str_eq, some, false, ◌≡◌, if◌then◌else◌, Bool, Option,
  String, ℕ, refl,
}
use django_saas_kit.Orm.{ok, Orm}
use django_saas_kit.Models.{StripeObject, Db, Subscription}

before_end : ℕ → Option ℕ → Bool
before_end now none = false
before_end now (some end) = ltb now end

unfoldable pub is_access_allowed : ℕ → Subscription → Bool
unfolding before_end
is_access_allowed now sub =
    if str_eq sub.status active || str_eq sub.status trialing
    then true
    else if str_eq sub.status past_due
    then before_end now sub.grace_period_end
    else false

module _ ⦃orm : Orm⦄ where
  -- The one subscription that Stripe knows by `id`, if there is one.
  abbrev pub Holds : String → Subscription → Db → Type 0
  Holds id sub db = orm.filter (with_stripe_id id) db.subscriptions ≡ sub ∷ []

  pub change-Holds :
      (id : String) (f : Subscription → Subscription) (sub : Subscription) (db : Db)
      → Holds id sub db
      → change id f db ≡ (ok (some (f sub)), save_sub sub f db)
  unfolding change
  change-Holds id f sub db h = rw (orm.atomic_lem, h) refl

  -- After an assignment that keeps Stripe's id, the subscription is the assigned one.
  pub Holds-save_sub :
      (id : String) (f : Subscription → Subscription) (sub : Subscription) (db : Db)
      → ((s : Subscription) → with_stripe_id id (f s) ≡ with_stripe_id id s)
      → Holds id sub db
      → Holds id (f sub) (save_sub sub f db)
  Holds-save_sub id f sub db keeps h = rw (
    filter-save_stable (with_stripe_id id) (with_sub_pk sub.pk) f keeps db.subscriptions,
    h,
    ==_refl sub.pk,
  )

  module _ (id : String) (sub : Subscription) (db : Db) (now later : ℕ) (obj : StripeObject) where
    -- A payment that succeeds restores access at every later time, whatever the status was.
    payment_succeeded_restores :
        Holds id sub db
        → obj.subscription ≡ some id
        → is_blank id ≡ false
        → let (r, db') = process_event now "invoice.payment_succeeded" obj db in
          (r ≡ ok tt)
          × Holds id (on_paid sub) db'
          × (db'.queue ≡ db.queue)
          × (is_access_allowed later (on_paid sub) ≡ true)
    unfolding process_event handler_of on_payment_succeeded is_access_allowed
    payment_succeeded_restores h named given =
        rw (named, given, change-Holds id on_paid sub db h)
          (refl, Holds-save_sub id on_paid sub db (λ s. refl) h, refl, refl)

    -- A deleted subscription gives no access at any later time, also if it was in a grace period.
    deleted_ends_access :
        Holds id sub db
        → obj.id ≡ some id
        → let (r, db') = process_event now "customer.subscription.deleted" obj db in
          (r ≡ ok tt)
          × Holds id (on_canceled sub) db'
          × (is_access_allowed later (on_canceled sub) ≡ false)
    unfolding process_event handler_of on_subscription_canceled is_access_allowed log
    deleted_ends_access h named =
        rw (named, change-Holds id on_canceled sub db h)
          (refl, Holds-save_sub id on_canceled sub db (λ s. refl) h, refl)

    -- The end of a grace period: a payment of the subscription restores access at every later time,
    -- whatever the status was, and its deletion gives no access at any later time, also if it was
    -- in a grace period.
    pub grace_ends :
        Holds id sub db
        → obj.subscription ≡ some id
        → obj.id ≡ some id
        → is_blank id ≡ false
        → let (paid, db1) = process_event now "invoice.payment_succeeded" obj db in
          let (deleted, db2) = process_event now "customer.subscription.deleted" obj db in
          ((paid ≡ ok tt)
            × Holds id (on_paid sub) db1
            × (db1.queue ≡ db.queue)
            × (is_access_allowed later (on_paid sub) ≡ true))
          × ((deleted ≡ ok tt)
              × Holds id (on_canceled sub) db2
              × (is_access_allowed later (on_canceled sub) ≡ false))
    grace_ends h named own given =
        (payment_succeeded_restores h named given, deleted_ends_access h own)
