-- ===== src/Billing/Deliveries.antt =====
-- Stripe delivers an event more than once: what the log of webhook events guarantees.

use django_saas_kit.Text.{is_blank}
use django_saas_kit.Rbac.Service.{is_in}
use django_saas_kit.Orm.Queries.{filter-create, count}
use django_saas_kit.Billing.Webhook.{
  invalid_signature, invalid_payload, handled_events, event, stripe_webhook_view, Constructed,
  deliver, with_event_id, queue_once,
}
use django_saas_kit.Base.{
  eq_iff, false, Bool-cases, Bool, [], ◌∷◌, inr, inl, [], str_eq, List-cases, if◌then◌else◌, ◌++◌,
  ◌≤◌, List, ℕ, ◌≡◌, arith, String, ◌+◌,
}
use django_saas_kit.Orm.{Orm}
use django_saas_kit.Models.{StripeObject, Db, Task, handle_stripe_event}

-- The task of an event.
is_event_task : String → Task → Bool
is_event_task id (handle_stripe_event i event_type data') = str_eq i id
is_event_task id _ = false

-- How often the queue holds the task of an event.
unfoldable pub task_count : String → List Task → ℕ
unfolding is_event_task
task_count id [] = 0
task_count id (task ∷ q) = (if is_event_task id task then 1 else 0) + task_count id q

task_count-append :
    (id : String) (q r : List Task) → task_count id (q ++ r) ≡ task_count id q + task_count id r
unfolding task_count
task_count-append id [] r = omega arith
task_count-append id (task ∷ q) r = omega (arith, task_count-append id q r)

module _ ⦃orm : Orm⦄ where
  -- Every queued event is logged, and no event is logged or queued twice.
  pub record IsOnce (db : Db) : Type 0 where
    pub logged : (id : String) → task_count id db.queue ≤ count (with_event_id id) db.webhook_events
    pub single : (id : String) → count (with_event_id id) db.webhook_events ≤ 1

  queue_once-IsOnce :
      (id event_type : String) (data' : StripeObject) (db : Db)
      → IsOnce db
      → IsOnce
          (queue_once id event_type data' (orm.filter (with_event_id id) db.webhook_events) db).1
  unfolding queue_once task_count
  queue_once-IsOnce id event_type data' db h =
      elim (List-cases (orm.filter (with_event_id id) db.webhook_events)) [
        | inl e ↦
            rw (e, queue_once)
              (record {
                logged = λ j. rw (filter-create, task_count-append) (ground (arith, h.logged j));
                single = λ j. rw filter-create (elim (Bool-cases (str_eq id j)) [
                  | inl same ↦
                      let p : id ≡ j = (eq_iff id j).0 same in rw (same, ← p, e) (omega arith)
                  | inr other ↦ rw other (h.single j)
                ]);
              })
        | inr (inl (x, e)) ↦ rw (e, queue_once) h
        | inr (inr (x, y, l, e)) ↦ rw (e, queue_once) h
      ]

  deliver-IsOnce : (c : Constructed) (db : Db) → IsOnce db → IsOnce (deliver c db).1
  unfolding deliver
  deliver-IsOnce invalid_payload db h = h
  deliver-IsOnce invalid_signature db h = h
  deliver-IsOnce (event id event_type data') db h =
      elim (Bool-cases (is_in event_type handled_events)) [
        | inl handled ↦ rw handled (queue_once-IsOnce id event_type data' db h)
        | inr ignored_type ↦ rw ignored_type h
      ]

  module _ {Payload : Type 0} (construct_event : Payload → String → String → Constructed)
      (webhook_secret : String) where
    -- The database after a list of deliveries, each a signature header and a payload.
    unfoldable pub deliveries : List (String × Payload) → Db → Db
    deliveries [] db = db
    deliveries ((sig_header, payload) ∷ l) db =
        deliveries l (stripe_webhook_view construct_event webhook_secret sig_header payload db).1

    view-IsOnce :
        (sig_header : String) (payload : Payload) (db : Db)
        → IsOnce db
        → IsOnce (stripe_webhook_view construct_event webhook_secret sig_header payload db).1
    unfolding stripe_webhook_view
    view-IsOnce sig_header payload db h = elim (Bool-cases (is_blank webhook_secret)) [
      | inl unset ↦ rw unset h
      | inr set_up ↦
          rw set_up (deliver-IsOnce (construct_event payload sig_header webhook_secret) db h)
    ]

    -- However often and in whatever order Stripe delivers, and whatever it answers about the
    -- payloads: where every queued event was logged and no event logged twice, that stays so, and
    -- no event's task is in the queue more than once.
    pub deliveries-IsOnce :
        (l : List (String × Payload)) (id : String) (db : Db)
        → IsOnce db
        → IsOnce (deliveries l db) × (task_count id (deliveries l db).queue ≤ 1)
    unfolding deliveries
    deliveries-IsOnce [] id db h = (h, omega (arith, h.logged id, h.single id))
    deliveries-IsOnce ((sig_header, payload) ∷ l) id db h =
        deliveries-IsOnce l id _ (view-IsOnce sig_header payload db h)
