-- ===== src/Mail/Once.antt =====
-- How many emails a worker sends at most, whatever the mail server does.
use django_saas_kit.Mail.Tasks.{
  notify, password_reset_email, mail_password_reset, invitation_email, mail_invitation,
  send_notification, trial_ending_email, dunning_email, mail_notification, mail_welcome,
  mail_trial_ending, mail_dunning, send_to_user, owner_in, to_owner, idempotently,
}
use django_saas_kit.Base.{
  ◌+◌, ◌*◌, length-append, ℕ, zero, suc, String, Option, none, some, List, [], ◌∷◌, ◌++◌, ◌≡◌, ◌≤◌,
  ◌⊎◌, inl, inr, refl, ap, sym, ◌∙◌, arith, length, List-cases, Option-cases,
}
use mathlib.Core.List.{append-nil, append_assoc}
use django_saas_kit.Orm.{Orm, ok, err, Result}
use django_saas_kit.Orm.Queries.{first}
use django_saas_kit.Cache.{Cache}
use django_saas_kit.Models.{
  Db, User, Tenant, Task, handle_stripe_event, send_dunning_email, send_trial_ending_email,
  send_invitation_email, send_welcome_email, send_password_reset_email, send_email_notification,
}
use django_saas_kit.Action.{after, Error}
use django_saas_kit.Celery.{Counted, retrying_counts}
use django_saas_kit.Rbac.Permissions.{with_pk}
use django_saas_kit.Rbac.Views.{with_user_pk}
use django_saas_kit.Idempotency.{build_key, idempotency_key, run_idempotent, keep_result}
use django_saas_kit.Notifications.{with_notification_pk}
use django_saas_kit.Mail.{
  skipped, taken_and_raised, refused, taken, deliver_email, SendResult, Email, Mailer, Post, Job,
  send_mail, send_email,
}
use django_saas_kit.Mail.Worker.{turn, email_retries, with_retries, perform, work, work_all}

run_cases :
    {A S : Type 0} (m : Result Error A × S)
    → ((a : A) × (s : S) × (m ≡ (ok a, s))) ⊎ ((e : Error) × (s : S) × (m ≡ (err e, s)))
run_cases (ok a, s) = inl (a, s, refl)
run_cases (err e, s) = inr (e, s, refl)

module _ ⦃orm : Orm⦄ ⦃cache : Cache String⦄ where
  -- At most so many emails were sent from one state to the other.
  abbrev pub Sent : ℕ → Post → Post → Type 0
  Sent n post post' = (mails : List Email) × (post'.sent ≡ post.sent ++ mails) × (length mails ≤ n)

  Sent-none : (n : ℕ) (post : Post) → Sent n post post
  Sent-none n post = ([], sym (append-nil post.sent), omega arith)

  Sent-add :
      (m n : ℕ) (post post' post'' : Post)
      → Sent m post post'
      → Sent n post' post''
      → Sent (m + n) post post''
  Sent-add m n post post' post'' (first_mails, e, one) (mails, e', most) = (
    first_mails ++ mails,
    e' ∙ ap (λ l. l ++ mails) e ∙ append_assoc post.sent first_mails mails,
    omega (arith, length-append first_mails mails),
  )

  Sent-Counted : Counted Sent
  Sent-Counted = record {
    add = λ n s s' s'' one rest.
        let (mails, e, most) = Sent-add 1 n s s' s'' one rest in (mails, e, omega arith);
    widen = λ n s s' (mails, e, one). (mails, e, omega arith);
  }

  with_retries-Sent :
      {A : Type 0} (mailer : Mailer) (clock : ℕ → ℕ) (run : ℕ → Job A) (post : Post)
      → ((now : ℕ) (s : Post) → Sent 1 s (run now s).1)
      → Sent 4 post (with_retries mailer clock run post)
  with_retries-Sent mailer clock run post once =
      retrying_counts Sent (λ left. run (clock left)) Sent-Counted (λ k s. once (clock k) s)
        email_retries post

  delivered-Sent :
      {A : Type 0} (outcome : SendResult) (email : Email) (a : A) (post : Post)
      → Sent 1 post (after (deliver_email outcome email post) (λ _ s. (ok a, s))).1
  delivered-Sent taken email a post = (email ∷ [], refl, omega arith)
  delivered-Sent refused email a post = Sent-none 1 post
  delivered-Sent taken_and_raised email a post = (email ∷ [], refl, omega arith)
  delivered-Sent skipped email a post = Sent-none 1 post

  module _ (mailer : Mailer) (now : ℕ) where
    send_mail-Sent :
        {A : Type 0} (email : Email) (a : A) (post : Post)
        → Sent 1 post (after (send_mail mailer now email post) (λ _ s. (ok a, s))).1
    send_mail-Sent email a post = delivered-Sent (mailer.outcome now email) email a post

    to_owner-Sent :
        (compose : Tenant → User → Db → Email) (label : String) (tenant_id : ℕ) (post : Post)
        → Sent 1 post (to_owner mailer now compose label tenant_id post).1
    unfolding to_owner
    to_owner-Sent compose label tenant_id post =
        elim (List-cases (orm.filter (with_pk tenant_id) post.db.tenants)) [
          | inl missing ↦ rw missing (Sent-none 1 post)
          | inr (inr (t, t', l, more)) ↦ rw more (Sent-none 1 post)
          | inr (inl (tenant, known)) ↦
              elim (Option-cases (first (owner_in tenant.pk) post.db.roles)) [
                | inl nobody ↦ rw (known, nobody) (Sent-none 1 post)
                | inr (role, owned) ↦
                    elim (List-cases (orm.filter (with_user_pk role.user) post.db.users)) [
                      | inl gone ↦ rw (known, owned, gone) (Sent-none 1 post)
                      | inr (inr (u, u', l, more)) ↦ rw (known, owned, more) (Sent-none 1 post)
                      | inr (inl (user, named)) ↦
                          rw (known, owned, named)
                            (send_mail-Sent (compose tenant user post.db) _ post)
                    ]
              ]
        ]

    idempotently-Sent :
        (task_name business_id : String) (operation : Job (Option String)) (post : Post)
        → Sent 1 post (operation post).1
        → Sent 1 post (idempotently mailer now task_name business_id operation post).1
    unfolding idempotently run_idempotent keep_result
    idempotently-Sent task_name business_id operation post once =
        elim (Option-cases
          (cache.get now (idempotency_key (build_key task_name business_id)) post.store)) [
            | inr (v, kept) ↦ rw (run_idempotent, kept) (Sent-none 1 post)
            | inl empty ↦ elim (run_cases (operation post)) [
              | inr (e, post', raised) ↦
                  let sent = rw raised at once in rw (run_idempotent, empty, raised) sent
              | inl (some v, post', done) ↦
                  let sent = rw done at once in rw (run_idempotent, empty, done) sent
              | inl (none, post', done) ↦
                  let sent = rw done at once in rw (run_idempotent, empty, done) sent
            ]
          ]

    send_to_user-Sent :
        (user_id : ℕ) (post : Post) → Sent 1 post (send_to_user mailer now user_id post).1
    unfolding send_to_user send_email
    send_to_user-Sent user_id post =
        elim (List-cases (orm.filter (with_user_pk user_id) post.db.users)) [
          | inl missing ↦ rw missing (Sent-none 1 post)
          | inr (inr (u, u', l, more)) ↦ rw more (Sent-none 1 post)
          | inr (inl (user, named)) ↦ rw named (send_mail-Sent _ _ post)
        ]

    notify-Sent : (id : ℕ) (post : Post) → Sent 1 post (notify mailer now id post).1
    unfolding notify send_notification send_email
    notify-Sent id post =
        elim (List-cases (orm.filter (with_notification_pk id) post.db.notifications)) [
          | inl missing ↦ rw missing (Sent-none 1 post)
          | inr (inr (n, n', l, more)) ↦ rw more (Sent-none 1 post)
          | inr (inl (n, known)) ↦
              elim (List-cases (orm.filter (with_user_pk n.user) post.db.users)) [
                | inl gone ↦ rw (known, gone) (Sent-none 1 post)
                | inr (inr (u, u', l, more)) ↦ rw (known, more) (Sent-none 1 post)
                | inr (inl (user, named)) ↦ rw (known, named) (send_mail-Sent _ _ post)
              ]
        ]

  module _ (mailer : Mailer) (clock : ℕ → ℕ) where
    perform-Sent : (task : Task) (post : Post) → Sent 4 post (perform mailer clock task post)
    unfolding perform mail_dunning mail_trial_ending mail_welcome mail_notification
    perform-Sent (handle_stripe_event id event_type data') post = Sent-none 4 post
    perform-Sent (send_dunning_email tenant) post =
        with_retries-Sent mailer clock (λ now. mail_dunning mailer now tenant) post
          (λ now s. to_owner-Sent mailer now (dunning_email mailer) "dunning" tenant s)
    perform-Sent (send_trial_ending_email tenant days) post =
        with_retries-Sent mailer clock (λ now. mail_trial_ending mailer now tenant days) post
          (λ now s.
            to_owner-Sent mailer now (trial_ending_email mailer days) "trial_ending" tenant s)
    perform-Sent (send_invitation_email to name by role url) post =
        with_retries-Sent mailer clock (λ now. mail_invitation mailer now to name by role url) post
          (λ now s. send_mail-Sent mailer now (invitation_email mailer to name by role url) tt s)
    perform-Sent (send_welcome_email user) post =
        with_retries-Sent mailer clock (λ now. mail_welcome mailer now user) post
          (λ now s.
            idempotently-Sent mailer now "welcome_email" (mailer.str user)
              (send_to_user mailer now user) s (send_to_user-Sent mailer now user s))
    perform-Sent (send_password_reset_email to name link uid token hours) post =
        with_retries-Sent mailer clock
          (λ now. mail_password_reset mailer now to name link uid token hours) post
          (λ now s.
            send_mail-Sent mailer now (password_reset_email mailer to name link uid token hours) _
              s)
    perform-Sent (send_email_notification id) post =
        with_retries-Sent mailer clock (λ now. mail_notification mailer now id) post
          (λ now s.
            idempotently-Sent mailer now "send_email_notification" (mailer.str id)
              (notify mailer now id) s (notify-Sent mailer now id s))

    turn-Sent : (queue : List Task) (post : Post) → Sent 4 post (turn mailer clock queue post)
    unfolding turn
    turn-Sent [] post = Sent-none 4 post
    turn-Sent (task ∷ queue) post = perform-Sent task _

    -- Whatever is queued, and whatever the mail server does, be it that it takes an email and fails
    -- after that, a number of turns of a worker, each with all runs of its task, send no more than
    -- four times as many emails as there are turns, and take none back.
    pub work_all-Sent : (n : ℕ) (post : Post) → Sent (4 * n) post (work_all mailer clock n post)
    unfolding work_all work
    work_all-Sent zero post = Sent-none 0 post
    work_all-Sent (suc n) post =
        let (mails, e, most) =
          Sent-add 4 (4 * n) post (turn mailer clock post.db.queue post)
            (work_all mailer clock n (turn mailer clock post.db.queue post))
            (turn-Sent post.db.queue post)
            (work_all-Sent n (turn mailer clock post.db.queue post)) in
        (mails, e, omega arith)
