-- ===== src/Billing/Isolation.antt =====
-- An event changes the subscription that it names, and no other tenant's.
use django_saas_kit.Text.{is_blank}
use django_saas_kit.Audit.{log}
use django_saas_kit.Action.{pure, after, Action, Error}
use django_saas_kit.Orm.Queries.{filter_only, first_cases, first, filter-save_other}
use django_saas_kit.Billing.Service.{
  on_failed, on_payment_failed, on_paid, on_payment_succeeded, on_canceled,
  on_subscription_canceled, on_updated, on_subscription_updated, apply_period, on_created,
  on_subscription_created, dunning, canceled_log, created_log, trial_will_end, payment_failed,
  payment_succeeded, deleted, updated, created, handler_of, handle, Handler, process_event,
  locked_first, get_or, of_customer, with_stripe_id, save_sub, with_sub_pk, change,
}
use django_saas_kit.Base.{
  none, some, Bool-cases, Option, List, ◌∙◌, inr, ◌==◌, inl, ◌||◌, ap, List-cases, [], String, ◌∷◌,
  Bool, false, ℕ, refl, ◌≡◌, arith,
}
use django_saas_kit.Orm.{err, ok, Result, Orm}
use django_saas_kit.Models.{StripeObject, Db, Subscription}

-- The event's object names the subscription by its customer or by Stripe's id.
abbrev pub names : StripeObject → Subscription → Bool
names obj sub =
    of_customer (get_or obj.customer "") sub
    || with_stripe_id (get_or obj.id "") sub
    || with_stripe_id (get_or obj.subscription "") sub

none_of : (a b c : Bool) → (a || b || c) ≡ false → (a ≡ false) × (b ≡ false) × (c ≡ false)
none_of a b c h = ground arith

module _ ⦃orm : Orm⦄ where
  created_log_frame :
      (obj : StripeObject) (found : Option Subscription) (db : Db)
      → (created_log obj found db).1.subscriptions ≡ db.subscriptions
  unfolding created_log log
  created_log_frame obj none db = refl
  created_log_frame obj (some sub) db = refl

  canceled_log_frame :
      (found : Option Subscription) (db : Db)
      → (canceled_log found db).1.subscriptions ≡ db.subscriptions
  unfolding canceled_log log
  canceled_log_frame none db = refl
  canceled_log_frame (some sub) db = refl

  dunning_frame :
      (found : Option Subscription) (db : Db)
      → (dunning found db).1.subscriptions ≡ db.subscriptions
  unfolding dunning
  dunning_frame none db = refl
  dunning_frame (some sub) db = refl

module _ ⦃orm : Orm⦄ (row : Subscription) where
  -- `row` is the one subscription with its key.
  abbrev pub Keeps : Db → Type 0
  Keeps db = orm.filter (with_sub_pk row.pk) db.subscriptions ≡ row ∷ []

  -- A save on a row with another key, or on no row.
  save_sub-Keeps :
      (sub : Subscription) (f : Subscription → Subscription) (db : Db)
      → ((s : Subscription) → (f s).pk ≡ s.pk)
      → with_sub_pk row.pk sub ≡ false
      → Keeps db
      → Keeps (save_sub sub f db)
  save_sub-Keeps sub f db keeps other h =
      filter-save_other (with_sub_pk row.pk) (with_sub_pk sub.pk) f
        (λ s. ap (λ pk. pk == row.pk) (keeps s)) (λ s e. ground arith) db.subscriptions
      ∙ h

  -- A row that a lookup has found, where the lookup does not select `row`, has another key.
  apart_pk :
      (q : Subscription → Bool) (sub : Subscription) (l : List Subscription) (db : Db)
      → orm.filter q db.subscriptions ≡ sub ∷ l
      → q row ≡ false
      → Keeps db
      → with_sub_pk row.pk sub ≡ false
  apart_pk q sub l db e other h = elim (Bool-cases (with_sub_pk row.pk sub)) [
    | inl same ↦ cc (filter_only (with_sub_pk row.pk) q db.subscriptions l row sub h e same)
    | inr apart ↦ apart
  ]

  change-Keeps :
      (id : String) (f : Subscription → Subscription) (db : Db)
      → ((s : Subscription) → (f s).pk ≡ s.pk)
      → with_stripe_id id row ≡ false
      → Keeps db
      → Keeps (change id f db).1
  unfolding change
  change-Keeps id f db keeps other h =
      elim (List-cases (orm.filter (with_stripe_id id) db.subscriptions)) [
        | inl e ↦ rw (orm.atomic_lem, e) h
        | inr (inl (sub, e)) ↦
            rw (orm.atomic_lem, e)
              (save_sub-Keeps sub f db keeps (apart_pk (with_stripe_id id) sub [] db e other h) h)
        | inr (inr (x, y, l, e)) ↦ rw (orm.atomic_lem, e) h
      ]

  created-Keeps :
      (customer : String) (f : Subscription → Subscription) (db : Db)
      → ((s : Subscription) → (f s).pk ≡ s.pk)
      → of_customer customer row ≡ false
      → Keeps db
      → Keeps
          (orm.atomic (λ s. locked_first f (first (of_customer customer) s.subscriptions) s) db).1
  created-Keeps customer f db keeps other h =
      elim (first_cases (of_customer customer) db.subscriptions) [
        | inl e ↦ rw (orm.atomic_lem, e) h
        | inr (sub, l, e, rows) ↦
            rw (orm.atomic_lem, e)
              (save_sub-Keeps sub f db keeps (apart_pk (of_customer customer) sub l db rows other h)
                h)
      ]

  -- What follows the block under `atomic` writes no subscription.
  after-Keeps :
      {A B : Type 0} (m : Result Error A × Db) (tail : A → Action B)
      → ((a : A) (s : Db) → (tail a s).1.subscriptions ≡ s.subscriptions)
      → Keeps m.1
      → Keeps (after m tail).1
  after-Keeps (ok a, s) tail frame h = rw (frame a s) h
  after-Keeps (err e, s) tail frame h = h

  -- Each handler, at an object that does not name `row`.
  handle-Keeps :
      (now : ℕ) (handler : Option Handler) (obj : StripeObject) (db : Db)
      → of_customer (get_or obj.customer "") row ≡ false
      → with_stripe_id (get_or obj.id "") row ≡ false
      → with_stripe_id (get_or obj.subscription "") row ≡ false
      → Keeps db
      → Keeps (handle now handler obj db).1
  unfolding handle
  handle-Keeps now none obj db a b c h = h
  handle-Keeps now (some created) obj db a b c h =
      unfold on_subscription_created in
      after-Keeps _ (created_log obj) (created_log_frame obj) (
        created-Keeps (get_or obj.customer "") (on_created obj) db
          (λ s. unfold apply_period in refl) a h)
  handle-Keeps now (some updated) obj db a b c h =
      unfold on_subscription_updated in
      after-Keeps _ (λ _. pure tt) (λ _ s. refl)
        (change-Keeps (get_or obj.id "") (on_updated obj) db (λ s. unfold apply_period in refl) b h)
  handle-Keeps now (some deleted) obj db a b c h =
      unfold on_subscription_canceled in
      after-Keeps _ canceled_log canceled_log_frame
        (change-Keeps (get_or obj.id "") on_canceled db (λ s. refl) b h)
  handle-Keeps now (some payment_succeeded) obj db a b c h =
      unfold on_payment_succeeded in
      elim (Bool-cases (is_blank (get_or obj.subscription ""))) [
        | inl blank ↦ rw blank h
        | inr given ↦ rw given (
            after-Keeps _ (λ _. pure tt) (λ _ s. refl)
              (change-Keeps (get_or obj.subscription "") on_paid db (λ s. refl) c h))
      ]
  handle-Keeps now (some payment_failed) obj db a b c h =
      unfold on_payment_failed in
      elim (Bool-cases (is_blank (get_or obj.subscription ""))) [
        | inl blank ↦ rw blank h
        | inr given ↦ rw given (
            after-Keeps _ dunning dunning_frame
              (change-Keeps (get_or obj.subscription "") (on_failed now) db (λ s. refl) c h))
      ]
  handle-Keeps now (some trial_will_end) obj db a b c h = h

  -- Whatever the event, a subscription that is the one with its key, and that the event's object
  -- does not name, stays as it is.
  pub process_event-Keeps :
      (now : ℕ) (event_type : String) (obj : StripeObject) (db : Db)
      → names obj row ≡ false
      → Keeps db
      → Keeps (process_event now event_type obj db).1
  unfolding process_event
  process_event-Keeps now event_type obj db other h =
      let (a, b, c) =
        none_of (of_customer (get_or obj.customer "") row) (with_stripe_id (get_or obj.id "") row)
          (with_stripe_id (get_or obj.subscription "") row) other in
      handle-Keeps now (handler_of event_type) obj db a b c h
