-- ===== src/Mail/Welcome.antt =====
-- The welcome email, whose task Celery may deliver twice.
use django_saas_kit.Base.{
  ◌∙◌, ℕ, String, true, none, some, List, [], ◌∷◌, ◌++◌, ◌≡◌, ◌<◌, ◌+◌, refl, eq_iff, ltb, arith,
  ap,
}
use django_saas_kit.Orm.{Orm, ok, err}
use django_saas_kit.Cache.{Cache}
use django_saas_kit.Text.{append}
use django_saas_kit.Models.{User, Task, send_welcome_email}
use django_saas_kit.Action.{email_refused}
use django_saas_kit.Celery.{retrying-ok, retrying_recovers}
use django_saas_kit.Rbac.Views.{with_user_pk}
use django_saas_kit.Users.Service.{get_display_name}
use django_saas_kit.Idempotency.{
  build_key, idempotency_key, default_ttl, run_idempotent, keep_result,
}
use django_saas_kit.Mail.{refused, taken, Email, Mailer, Post, send_email, compose_email}
use django_saas_kit.Mail.Tasks.{mail_welcome, send_to_user, send_welcome, idempotently}
use django_saas_kit.Mail.Worker.{work, turn, perform, email_retries}
use django_saas_kit.Mail.Delivery.{TakenAt}

module _ ⦃orm : Orm⦄ ⦃cache : Cache String⦄ (mailer : Mailer) where
  abbrev pub welcome_key : ℕ → String
  welcome_key user = idempotency_key (build_key "welcome_email" (mailer.str user))

  abbrev pub welcome_done : ℕ → String
  welcome_done user = append "welcome_sent:" (mailer.str user)

  -- The email of `WelcomeEmailService.send_to_user`
  abbrev pub welcome_email : User → Email
  welcome_email user =
      compose_email mailer 0 "Welcome to Django SaaS Kit" (user.email ∷ [])
        (some "emails/welcome.html") (some "emails/welcome.txt")
        (("user_name", get_display_name user) ∷ ("email", user.email) ∷ [])
        mailer.default_from_email

  -- The state after the email was sent at a time.
  abbrev pub welcomed : ℕ → ℕ → User → Post → Post
  welcomed now id user post = record post {
    sent = post.sent ++ welcome_email user ∷ [];
    store = cache.set now (welcome_key id) (welcome_done id) default_ttl post.store;
  }

  module _ (id : ℕ) (user : User) (post : Post)
      (named : orm.filter (with_user_pk id) post.db.users ≡ user ∷ []) where
    welcome_taken :
        (now : ℕ)
        → cache.get now (welcome_key id) post.store ≡ none
        → mailer.outcome now (welcome_email user) ≡ taken
        → mail_welcome mailer now id post ≡ (ok (some (welcome_done id)), welcomed now id user post)
    unfolding mail_welcome send_to_user send_welcome idempotently send_email keep_result
    welcome_taken now empty accepted = rw (run_idempotent, empty, named, accepted) refl

    welcome_refused :
        (now : ℕ)
        → cache.get now (welcome_key id) post.store ≡ none
        → mailer.outcome now (welcome_email user) ≡ refused
        → mail_welcome mailer now id post ≡ (err email_refused, post)
    unfolding mail_welcome send_to_user send_welcome idempotently send_email keep_result
    welcome_refused now empty down = rw (run_idempotent, empty, named, down) refl

  welcome_kept :
      (now id : ℕ) (value : String) (post : Post)
      → cache.get now (welcome_key id) post.store ≡ some value
      → mail_welcome mailer now id post ≡ (ok (some value), post)
  unfolding mail_welcome idempotently
  welcome_kept now id value post kept = rw (run_idempotent, kept) refl

  -- The task of a welcome email stands twice in the queue, and nothing is cached for it. Where the
  -- mail server is down in the first runs of the first one and then takes emails, in one of the four
  -- runs, and the second one starts less than a day after that run, the user is sent one email; the
  -- second task sends nothing, and the queue is left without the two.
  pub welcome_once :
      (id k : ℕ) (user : User) (rest : List Task) (post : Post) (clock later : ℕ → ℕ)
      → post.db.queue ≡ send_welcome_email id ∷ send_welcome_email id ∷ rest
      → orm.filter (with_user_pk id) post.db.users ≡ user ∷ []
      → ((j : ℕ) → cache.get (clock j) (welcome_key id) post.store ≡ none)
      → ((email : Email) → TakenAt mailer clock email k)
      → later email_retries < clock k + default_ttl
      → let post2 = work mailer later (work mailer clock post) in
        (post2.sent ≡ post.sent ++ welcome_email user ∷ [])
        × ((welcome_email user).recipients ≡ user.email ∷ [])
        × (post2.db ≡ record post.db { queue = rest })
  unfolding work turn perform
  welcome_once id k user rest post clock later waits named empty takes soon =
      let queued : Post = record post {
        db = record post.db { queue = send_welcome_email id ∷ rest };
      } in
      let (within, accepted, down) = takes (welcome_email user) in
      let first_run =
        retrying_recovers (λ left. mail_welcome mailer (clock left) id) email_retries k queued
          (welcomed (clock k) id user queued) (some (welcome_done id)) within
          (λ j below le. (
            email_refused,
            welcome_refused id user queued named (clock j) (empty j) (down j below le),
          ))
          (welcome_taken id user queued named (clock k) (empty k) accepted) in
      let idle : Post = record (welcomed (clock k) id user queued) {
        db = record post.db { queue = rest };
      } in
      let fresh : ltb (later email_retries) (clock k + default_ttl) ≡ true = ground arith in
      let kept : cache.get (later email_retries) (welcome_key id) idle.store
          ≡ some (welcome_done id) =
        rw (cache.get-set, (eq_iff (welcome_key id) (welcome_key id)).1 refl, fresh) refl in
      let second_run =
        retrying-ok (λ left. mail_welcome mailer (later left) id) email_retries idle idle
          (some (welcome_done id))
          (welcome_kept (later email_retries) id (welcome_done id) idle kept) in
      let first_turn : work mailer clock post ≡ welcomed (clock k) id user queued =
        ap (λ q. turn mailer clock q post) waits ∙ ap (λ m. m.1) first_run in
      let second_turn : work mailer later (welcomed (clock k) id user queued) ≡ idle =
        ap (λ m. m.1) second_run in
      rw (first_turn, second_turn) (refl, refl, refl)
