-- ===== src/Billing/Worker.antt =====
-- apps/billing/tasks.py: the task of an event, which Celery runs again after a failure.
use django_saas_kit.Base.{String, ℕ}
use django_saas_kit.Orm.{Orm}
use django_saas_kit.Celery.{retrying}
use django_saas_kit.Action.{Action}
use django_saas_kit.Models.{StripeObject}
use django_saas_kit.Billing.Service.{process_event}

-- `max_retries`
abbrev pub max_retries : ℕ
max_retries = 5

module _ ⦃orm : Orm⦄ where
  -- The runs of `handle_stripe_event`; `clock` is the time of a run, for the retries that are left.
  unfoldable pub run_event : (clock : ℕ → ℕ) → (event_type : String) → StripeObject → Action Unit
  run_event clock event_type data' =
      retrying (λ left. process_event (clock left) event_type data') max_retries
