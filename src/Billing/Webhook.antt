-- ===== src/Billing/Webhook.antt =====
-- `StripeWebhookView` of apps/billing/views.py. Stripe's library verifies a payload: its answer is a
-- parameter. A delivery that passes is queued once for each event id.
use django_saas_kit.Text.{is_blank}
use django_saas_kit.Rbac.Service.{is_in}
use django_saas_kit.Http.{reply, Reply}
use django_saas_kit.Billing.Service.{handler_of}
use django_saas_kit.Action.{gets, ◌>>=◌, modify, ◌>>◌, pure, Action}
use django_saas_kit.Base.{
  ◌++◌, not, [], if◌then◌else◌, is_some, str_eq, ◌∷◌, Bool, List, ◌≡◌, arith, String,
}
use django_saas_kit.Orm.{Orm}
use django_saas_kit.Models.{StripeObject, WebhookEvent, handle_stripe_event}

-- What `stripe.Webhook.construct_event` returns or raises.
pub data Constructed : Type 0 where
  event : (id event_type : String) → StripeObject → Constructed
  invalid_payload : Constructed
  invalid_signature : Constructed

-- The body of the response.
pub data Outcome : Type 0 where
  misconfigured bad_payload bad_signature ignored duplicate queued : Outcome

-- `HANDLED_EVENTS`
abbrev pub handled_events : List String
handled_events =
    "customer.subscription.created" ∷ "customer.subscription.updated"
    ∷ "customer.subscription.deleted" ∷ "invoice.payment_succeeded" ∷ "invoice.payment_failed"
    ∷ "customer.subscription.trial_will_end" ∷ []

abbrev pub with_event_id : String → WebhookEvent → Bool
with_event_id id e = str_eq e.stripe_event_id id

module _ ⦃orm : Orm⦄ where
  -- `get_or_create` and the call of the task, on the rows that the lookup has found
  unfoldable pub queue_once :
      String → String → StripeObject → List WebhookEvent → Action (Reply Outcome)
  queue_once id event_type data' [] = do
    modify (λ db. record db {
      webhook_events =
          orm.create (record { stripe_event_id = id; event_type = event_type }) db.webhook_events;
      queue = db.queue ++ handle_stripe_event id event_type data' ∷ [];
    })
    pure (reply 200 queued)
  queue_once id event_type data' (e ∷ l) = pure (reply 200 duplicate)

  unfoldable pub deliver : Constructed → Action (Reply Outcome)
  deliver invalid_payload = pure (reply 400 bad_payload)
  deliver invalid_signature = pure (reply 400 bad_signature)
  deliver (event id event_type data') =
      if not (is_in event_type handled_events) then pure (reply 200 ignored) else (do
        found ← gets (λ db. orm.filter (with_event_id id) db.webhook_events)
        queue_once id event_type data' found)

  module _ {Payload : Type 0} (construct_event : Payload → String → String → Constructed) where
    -- `StripeWebhookView.post`
    unfoldable pub stripe_webhook_view :
        (webhook_secret sig_header : String) → Payload → Action (Reply Outcome)
    unfolding deliver queue_once
    stripe_webhook_view webhook_secret sig_header payload =
        if is_blank webhook_secret
        then pure (reply 500 misconfigured)
        else deliver (construct_event payload sig_header webhook_secret)

-- The view lets through exactly the event types that `process_event` has a handler for.
handled-iff-handler_of :
    (event_type : String) → is_some (handler_of event_type) ≡ is_in event_type handled_events
unfolding handler_of
handled-iff-handler_of event_type = ground arith
