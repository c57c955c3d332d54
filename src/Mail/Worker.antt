-- ===== src/Mail/Worker.antt =====
-- A Celery worker: it takes the tasks from the queue and runs each one, with its retries.
use django_saas_kit.Base.{ℕ, zero, suc, String, List, [], ◌∷◌}
use django_saas_kit.Orm.{Orm}
use django_saas_kit.Cache.{Cache}
use django_saas_kit.Celery.{retrying}
use django_saas_kit.Models.{
  Task, handle_stripe_event, send_dunning_email, send_trial_ending_email, send_invitation_email,
  send_welcome_email, send_password_reset_email, send_email_notification,
}
use django_saas_kit.Billing.Worker.{run_event}
use django_saas_kit.Mail.{Mailer, Post, Job}
use django_saas_kit.Mail.Tasks.{
  mail_dunning, mail_trial_ending, mail_invitation, mail_password_reset, mail_welcome,
  mail_notification,
}

-- `max_retries` of the tasks that send emails, and `TASK_MAX_RETRIES`
abbrev pub email_retries : ℕ
email_retries = 3

module _ ⦃orm : Orm⦄ ⦃cache : Cache String⦄ (mailer : Mailer) (clock : ℕ → ℕ) where
  -- All runs of a task; `clock` is the time of a run, for the retries that are left.
  abbrev pub with_retries : {A : Type 0} → (ℕ → Job A) → Post → Post
  with_retries run post = (retrying (λ left. run (clock left)) email_retries post).1

  unfoldable pub perform : Task → Post → Post
  perform (handle_stripe_event id event_type data') post = record post {
    db = (run_event clock event_type data' post.db).1;
  }
  perform (send_dunning_email tenant) post =
      with_retries (λ now. mail_dunning mailer now tenant) post
  perform (send_trial_ending_email tenant days_remaining) post =
      with_retries (λ now. mail_trial_ending mailer now tenant days_remaining) post
  perform (send_invitation_email to tenant_name invited_by_name role accept_url) post =
      with_retries
        (λ now. mail_invitation mailer now to tenant_name invited_by_name role accept_url) post
  perform (send_welcome_email user) post = with_retries (λ now. mail_welcome mailer now user) post
  perform (send_password_reset_email to user_name link uid token hours_valid) post =
      with_retries (λ now. mail_password_reset mailer now to user_name link uid token hours_valid)
        post
  perform (send_email_notification notification) post =
      with_retries (λ now. mail_notification mailer now notification) post

  -- A worker takes the first task.
  unfoldable pub turn : List Task → Post → Post
  unfolding perform
  turn [] post = post
  turn (task ∷ queue) post = perform task (record post { db = record post.db { queue = queue } })

  unfoldable pub work : Post → Post
  unfolding turn
  work post = turn post.db.queue post

  -- so many turns of the worker
  unfoldable pub work_all : ℕ → Post → Post
  unfolding work
  work_all zero post = post
  work_all (suc n) post = work_all n (work post)
