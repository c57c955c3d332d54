-- ===== src/Billing/Service.antt =====
-- services/billing/billing_service.py: the handlers of Stripe's events. An event's JSON is taken as
-- the record of the keys that the handlers read, each missing or of its usual type.
use django_saas_kit.Text.{is_blank}
use django_saas_kit.Rbac.Permissions.{with_pk}
use django_saas_kit.Audit.{log}
use django_saas_kit.Orm.Queries.{first}
use django_saas_kit.Base.{
  ◌++◌, [], ◌∷◌, List, str_eq, if◌then◌else◌, none, some, Bool, Option, false, String, ℕ, ◌==◌, ◌+◌,
  ◌*◌,
}
use django_saas_kit.Orm.{Orm}
use django_saas_kit.Models.{StripeObject, send_dunning_email, AuditAction, Db, Subscription, Tenant}
use django_saas_kit.Action.{
  multiple_objects_returned, raise, Action, pure, ◌>>=◌, ◌>>◌, modify, gets,
}

abbrev pub active : String
active = "active"

abbrev pub trialing : String
trialing = "trialing"

abbrev pub past_due : String
past_due = "past_due"

abbrev pub canceled : String
canceled = "canceled"

-- `obj.get(key, default)`
abbrev pub get_or {ℓ} : {A : Type ℓ} → Option A → A → A
get_or none d = d
get_or (some a) d = a

-- `_GRACE_PERIOD_DAYS`, in seconds
abbrev pub grace_period : ℕ
grace_period = 7 * 86400

-- `if ts:` keeps the old value where the timestamp is missing or zero
abbrev set_time : Option ℕ → Option ℕ → Option ℕ
set_time none old = old
set_time (some ts) old = if ts == 0 then old else some ts

-- `BillingService._apply_period`
unfoldable pub apply_period : StripeObject → Subscription → Subscription
apply_period obj sub = record sub {
  current_period_start = set_time obj.current_period_start sub.current_period_start;
  current_period_end = set_time obj.current_period_end sub.current_period_end;
  trial_end = set_time obj.trial_end sub.trial_end;
}

first_item : Option (List (Option (Option String))) → Option (Option String)
first_item none = none
first_item (some []) = none
first_item (some (item ∷ l)) = item

price_id : Option (Option String) → String
price_id none = ""
price_id (some none) = ""
price_id (some (some id)) = id

-- `(obj.get("items", {}).get("data") or [{}])[0].get("price", {}).get("id", "")`
unfoldable pub first_price_id : StripeObject → String
unfolding first_item price_id
first_price_id obj = price_id (first_item (get_or obj.items none))

-- The lookups on `Subscription`.
abbrev pub of_customer : String → Subscription → Bool
of_customer customer sub = str_eq sub.stripe_customer_id customer

abbrev pub with_stripe_id : String → Subscription → Bool
with_stripe_id id sub = elim sub.stripe_subscription_id [ none ↦ false | some i ↦ str_eq i id ]

abbrev pub with_sub_pk : ℕ → Subscription → Bool
with_sub_pk pk sub = sub.pk == pk

-- The assignments of the handlers to the row that they have found.
abbrev pub on_created : StripeObject → Subscription → Subscription
on_created obj sub = apply_period obj (record sub {
  stripe_subscription_id = some (get_or obj.id "");
  status = get_or obj.status active;
  stripe_price_id = first_price_id obj;
})

abbrev pub on_updated : StripeObject → Subscription → Subscription
on_updated obj sub = apply_period obj (record sub {
  status = get_or obj.status active;
  cancel_at_period_end = get_or obj.cancel_at_period_end false;
})

abbrev pub on_canceled : Subscription → Subscription
on_canceled sub = record sub { status = canceled; grace_period_end = none }

abbrev pub on_paid : Subscription → Subscription
on_paid sub = record sub { status = active; grace_period_end = none }

abbrev pub on_failed : ℕ → Subscription → Subscription
on_failed now sub = record sub { status = past_due; grace_period_end = some (now + grace_period) }

-- The handlers of `process_event`, and the event types that they stand under.
pub data Handler : Type 0 where
  created updated deleted payment_succeeded payment_failed trial_will_end : Handler

unfoldable pub handler_of : String → Option Handler
handler_of event_type =
    if str_eq event_type "customer.subscription.created"
    then some created
    else if str_eq event_type "customer.subscription.updated"
    then some updated
    else if str_eq event_type "customer.subscription.deleted"
    then some deleted
    else if str_eq event_type "invoice.payment_succeeded"
    then some payment_succeeded
    else if str_eq event_type "invoice.payment_failed"
    then some payment_failed
    else if str_eq event_type "customer.subscription.trial_will_end"
    then some trial_will_end
    else none

module _ ⦃orm : Orm⦄ where
  -- `sub.save()`: the row with the key of `sub`
  abbrev pub save_sub : Subscription → (Subscription → Subscription) → Db → Db
  save_sub sub f db = record db { subscriptions = orm.save (with_sub_pk sub.pk) f db.subscriptions }

  -- The block under `transaction.atomic()`, on the rows that the lookup has locked; `none` where
  -- there is no row, which `DoesNotExist` says.
  abbrev pub locked :
      (Subscription → Subscription) → List Subscription → Action (Option Subscription)
  locked f [] = pure none
  locked f (sub ∷ []) = modify (save_sub sub f) >> pure (some (f sub))
  locked f (sub ∷ sub' ∷ l) = raise multiple_objects_returned

  -- `.filter(...).first()` takes the first of several rows
  abbrev pub locked_first :
      (Subscription → Subscription) → Option Subscription → Action (Option Subscription)
  locked_first f none = pure none
  locked_first f (some sub) = modify (save_sub sub f) >> pure (some (f sub))

  -- `select_for_update().get(stripe_subscription_id=id)`, the assignments, and `save()`
  unfoldable pub change : String → (Subscription → Subscription) → Action (Option Subscription)
  change id f =
      orm.atomic (gets (λ db. orm.filter (with_stripe_id id) db.subscriptions) >>= locked f)

  abbrev tenant_of : Subscription → Db → Option Tenant
  tenant_of sub db = first (with_pk sub.tenant) db.tenants

  unfoldable pub created_log : StripeObject → Option Subscription → Action Unit
  created_log obj none = pure tt
  created_log obj (some sub) = do
    tenant ← gets (tenant_of sub)
    log AuditAction.subscription_created none tenant none "Subscription" (some sub.pk)
        (("status", get_or obj.status active) ∷ ("stripe_sub_id", get_or obj.id "") ∷ [])

  unfoldable pub canceled_log : Option Subscription → Action Unit
  canceled_log none = pure tt
  canceled_log (some sub) = do
    tenant ← gets (tenant_of sub)
    log AuditAction.subscription_canceled none tenant none "Subscription" (some sub.pk) []

  unfoldable pub dunning : Option Subscription → Action Unit
  dunning none = pure tt
  dunning (some sub) =
      modify (λ db. record db { queue = db.queue ++ send_dunning_email sub.tenant ∷ [] })

  unfoldable pub on_subscription_created : StripeObject → Action Unit
  unfolding created_log
  on_subscription_created obj = do
    sub ← orm.atomic (
        gets (λ db. first (of_customer (get_or obj.customer "")) db.subscriptions)
        >>= locked_first (on_created obj))
    created_log obj sub

  unfoldable pub on_subscription_updated : StripeObject → Action Unit
  on_subscription_updated obj = change (get_or obj.id "") (on_updated obj) >> pure tt

  unfoldable pub on_subscription_canceled : StripeObject → Action Unit
  unfolding canceled_log
  on_subscription_canceled obj = do sub ← change (get_or obj.id "") on_canceled; canceled_log sub

  unfoldable pub on_payment_succeeded : StripeObject → Action Unit
  on_payment_succeeded obj =
      let id = get_or obj.subscription "" in
      if is_blank id then pure tt else (change id on_paid >> pure tt)

  unfoldable pub on_payment_failed : ℕ → StripeObject → Action Unit
  unfolding dunning
  on_payment_failed now obj =
      let id = get_or obj.subscription "" in
      if is_blank id then pure tt else (do sub ← change id (on_failed now); dunning sub)

  unfoldable pub handle : ℕ → Option Handler → StripeObject → Action Unit
  handle now none obj = pure tt
  handle now (some created) obj = on_subscription_created obj
  handle now (some updated) obj = on_subscription_updated obj
  handle now (some deleted) obj = on_subscription_canceled obj
  handle now (some payment_succeeded) obj = on_payment_succeeded obj
  handle now (some payment_failed) obj = on_payment_failed now obj
  handle now (some trial_will_end) obj = pure tt

  -- `BillingService.process_event`, at the time `now`
  unfoldable pub process_event : ℕ → String → StripeObject → Action Unit
  unfolding handle
  process_event now event_type obj = handle now (handler_of event_type) obj
