-- ===== src/Mail/Tasks.antt =====
-- The Celery tasks that send emails: apps/billing/tasks.py, apps/users/tasks.py,
-- apps/invitations/tasks.py, apps/authentication/tasks.py and apps/notifications/tasks.py. Each
-- definition is one run of its task.
use django_saas_kit.Base.{ℕ, String, Bool, Option, none, some, List, [], ◌∷◌, ◌&&◌, ◌==◌, str_eq}
use django_saas_kit.Orm.{Orm}
use django_saas_kit.Orm.Queries.{first}
use django_saas_kit.Cache.{Cache}
use django_saas_kit.Text.{append}
use django_saas_kit.Models.{Db, User, Tenant, UserTenantRole, Plan, Notification}
use django_saas_kit.Action.{does_not_exist, multiple_objects_returned}
use django_saas_kit.Billing.Plans.{subscription_of, get_plan}
use django_saas_kit.Rbac.Service.{owner}
use django_saas_kit.Rbac.Permissions.{with_pk}
use django_saas_kit.Rbac.Views.{with_user_pk}
use django_saas_kit.Users.Service.{get_display_name}
use django_saas_kit.Idempotency.{run_idempotent, build_key, default_ttl}
use django_saas_kit.Notifications.{with_notification_pk}
use django_saas_kit.Mail.{
  Email, Context, Mailer, Job, ◌>>=◌, ◌>>◌, pure, raise, query, only, send_mail, send_email,
}

-- `UserTenantRole.objects.filter(tenant=tenant, role=RoleChoices.OWNER)`
abbrev pub owner_in : ℕ → UserTenantRole → Bool
owner_in tenant r = r.tenant == tenant && str_eq r.role owner

abbrev pub date_or_soon : Mailer → Option ℕ → String
date_or_soon mailer none = "soon"
date_or_soon mailer (some time) = mailer.date time

abbrev pub plan_name : Option Plan → (otherwise : String) → String
plan_name none otherwise = otherwise
plan_name (some plan) otherwise = plan.name

abbrev pub billing_url : Mailer → String
billing_url mailer = elim mailer.billing_portal_url [
  | none ↦ append mailer.frontend_url "/billing"
  | some url ↦ url
]

module _ ⦃orm : Orm⦄ (mailer : Mailer) where
  abbrev pub grace_end_of : Tenant → Db → String
  grace_end_of tenant db = elim (subscription_of tenant db) [
    | none ↦ "soon"
    | some sub ↦ date_or_soon mailer sub.grace_period_end
  ]

  abbrev pub trial_end_of : Tenant → Db → String
  trial_end_of tenant db = elim (subscription_of tenant db) [
    | none ↦ "soon"
    | some sub ↦ date_or_soon mailer sub.trial_end
  ]

  -- The email of `send_dunning_email`
  unfoldable pub dunning_email : Tenant → User → Db → Email
  dunning_email tenant user db =
      let until = grace_end_of tenant db in
      let context : Context =
        ("user_name", get_display_name user)
        ∷ ("tenant_name", tenant.name)
        ∷ ("plan_name", plan_name (get_plan tenant db) "Unknown")
        ∷ ("grace_period_end", until)
        ∷ ("billing_url", billing_url mailer)
        ∷ [] in
      record {
        subject = append "Action required: Payment failed for " tenant.name;
        text_body = append "Hi " (
            append (get_display_name user) (
              append ",\n\nYour recent payment failed for " (
                append tenant.name (
                  append ".\nPlease update your payment method before " (
                    append until (
                      append " to avoid service interruption.\n\nUpdate here: "
                        (billing_url mailer)))))));
        html_body = some (mailer.render "emails/payment_failed.html" context);
        from_email = mailer.default_from_email;
        recipients = user.email ∷ [];
      }

  -- The email of `send_trial_ending_email`
  unfoldable pub trial_ending_email : (days_remaining : ℕ) → Tenant → User → Db → Email
  trial_ending_email days_remaining tenant user db =
      let days = mailer.str days_remaining in
      let until = trial_end_of tenant db in
      let context : Context =
        ("user_name", get_display_name user)
        ∷ ("tenant_name", tenant.name)
        ∷ ("plan_name", plan_name (get_plan tenant db) "Trial")
        ∷ ("days_remaining", days)
        ∷ ("trial_end_date", until)
        ∷ ("billing_url", billing_url mailer)
        ∷ [] in
      record {
        subject = append "Your trial ends in " (append days (append " day(s) — " tenant.name));
        text_body = append "Hi " (
            append (get_display_name user) (
              append ",\n\nYour free trial for " (
                append tenant.name (
                  append " ends in " (
                    append days (
                      append " day(s) on " (
                        append until (
                          append ".\nAdd a payment method here to continue: "
                            (billing_url mailer)))))))));
        html_body = some (mailer.render "emails/trial_ending.html" context);
        from_email = mailer.default_from_email;
        recipients = user.email ∷ [];
      }

  -- The email of `send_invitation_email`
  unfoldable pub invitation_email :
      (recipient_email tenant_name invited_by_name role accept_url : String) → Email
  invitation_email recipient_email tenant_name invited_by_name role accept_url =
      let context : Context =
        ("tenant_name", tenant_name)
        ∷ ("invited_by_name", invited_by_name)
        ∷ ("role", role)
        ∷ ("accept_url", accept_url)
        ∷ [] in
      record {
        subject = append "You've been invited to join " tenant_name;
        text_body = append "Hi,\n\n" (
            append invited_by_name (
              append " has invited you to join " (
                append tenant_name (
                  append " as a " (
                    append role (
                      append ".\n\nAccept your invitation here (expires in 72 hours):\n" (
                        append accept_url
                          "\n\nIf you didn't expect this invitation you can safely ignore this email.\n")))))));
        html_body = some (mailer.render "emails/invitation.html" context);
        from_email = mailer.default_from_email;
        recipients = recipient_email ∷ [];
      }

  -- The email of `send_password_reset_email`
  unfoldable pub password_reset_email :
      (recipient_email user_name reset_link uid token : String) → (hours_valid : ℕ) → Email
  password_reset_email recipient_email user_name reset_link uid token hours_valid =
      let context : Context =
        ("user_name", user_name)
        ∷ ("reset_link", reset_link)
        ∷ ("uid", uid)
        ∷ ("token", token)
        ∷ ("hours_valid", mailer.str hours_valid)
        ∷ [] in
      record {
        subject = "Password Reset Request";
        text_body = mailer.render "emails/password_reset.txt" context;
        html_body = some (mailer.render "emails/password_reset.html" context);
        from_email = mailer.default_from_email;
        recipients = recipient_email ∷ [];
      }

module _ ⦃orm : Orm⦄ ⦃cache : Cache String⦄ (mailer : Mailer) (now : ℕ) where
  -- What the two tasks of billing share: the email to the first owner, if there is one
  abbrev pub to_user : (Tenant → User → Db → Email) → String → ℕ → Tenant → ℕ → Job String
  to_user compose label tenant_id tenant user_id = do
    users ← query (λ db. orm.filter (with_user_pk user_id) db.users)
    user ← only does_not_exist users
    email ← query (compose tenant user)
    send_mail mailer now email
    pure (append label (append ":sent:" (mailer.str tenant_id)))

  unfoldable pub to_first :
      (Tenant → User → Db → Email) → String → ℕ → Tenant → Option UserTenantRole → Job String
  to_first compose label tenant_id tenant none =
      pure (append label (append ":no_owner:" (mailer.str tenant_id)))
  to_first compose label tenant_id tenant (some role) =
      to_user compose label tenant_id tenant role.user

  unfoldable pub to_owner : (Tenant → User → Db → Email) → String → (tenant_id : ℕ) → Job String
  unfolding to_first
  to_owner compose label tenant_id = do
    tenants ← query (λ db. orm.filter (with_pk tenant_id) db.tenants)
    tenant ← only does_not_exist tenants
    role ← query (λ db. first (owner_in tenant.pk) db.roles)
    to_first compose label tenant_id tenant role

  -- `send_dunning_email`
  unfoldable pub mail_dunning : (tenant_id : ℕ) → Job String
  unfolding to_owner
  mail_dunning tenant_id = to_owner (dunning_email mailer) "dunning" tenant_id

  -- `send_trial_ending_email`
  unfoldable pub mail_trial_ending : (tenant_id days_remaining : ℕ) → Job String
  unfolding to_owner
  mail_trial_ending tenant_id days_remaining =
      to_owner (trial_ending_email mailer days_remaining) "trial_ending" tenant_id

  -- `send_invitation_email`
  abbrev pub mail_invitation :
      (recipient_email tenant_name invited_by_name role accept_url : String) → Job Unit
  mail_invitation recipient_email tenant_name invited_by_name role accept_url =
      send_mail mailer now
        (invitation_email mailer recipient_email tenant_name invited_by_name role accept_url)
      >> pure tt

  -- `send_password_reset_email`
  abbrev pub mail_password_reset :
      (recipient_email user_name reset_link uid token : String) → (hours_valid : ℕ) → Job String
  mail_password_reset recipient_email user_name reset_link uid token hours_valid =
      send_mail mailer now
        (password_reset_email mailer recipient_email user_name reset_link uid token hours_valid)
      >> pure (append "password_reset_email:sent:" recipient_email)

  -- `IdempotencyService.run` on a job
  unfoldable pub idempotently :
      (task_name business_id : String) → Job (Option String) → Job (Option String)
  unfolding run_idempotent
  idempotently task_name business_id operation post =
      let (r, post', store) =
        run_idempotent now (build_key task_name business_id) default_ttl operation post
          post.store in
      (r, record post' { store = store })

  unfoldable pub send_welcome : ℕ → List User → Job (Option String)
  send_welcome user_id [] = pure (some (append "welcome_skipped:" (mailer.str user_id)))
  send_welcome user_id (user ∷ user' ∷ users) = raise multiple_objects_returned
  send_welcome user_id (user ∷ []) = do
    send_email mailer now "Welcome to Django SaaS Kit" (user.email ∷ [])
        (some "emails/welcome.html") (some "emails/welcome.txt")
        (("user_name", get_display_name user) ∷ ("email", user.email) ∷ []) none
    pure (some (append "welcome_sent:" (mailer.str user_id)))

  -- `WelcomeEmailService.send_to_user`, a user that is not found being skipped
  unfoldable pub send_to_user : (user_id : ℕ) → Job (Option String)
  unfolding send_welcome send_email
  send_to_user user_id = do
    users ← query (λ db. orm.filter (with_user_pk user_id) db.users)
    send_welcome user_id users

  -- `send_welcome_email`
  unfoldable pub mail_welcome : (user_id : ℕ) → Job (Option String)
  unfolding idempotently send_to_user
  mail_welcome user_id = idempotently "welcome_email" (mailer.str user_id) (send_to_user user_id)

  unfoldable pub send_notification : ℕ → List Notification → Job (Option String)
  send_notification id [] = pure (some (append "email_notification_skipped:" (mailer.str id)))
  send_notification id (notification ∷ other ∷ others) = raise multiple_objects_returned
  send_notification id (notification ∷ []) = do
    users ← query (λ db. orm.filter (with_user_pk notification.user) db.users)
    user ← only does_not_exist users
    send_email mailer now notification.title (user.email ∷ []) (some "emails/notification.html")
        (some "emails/notification.txt")
        (("user_name", get_display_name user)
          ∷ ("title", notification.title)
          ∷ ("body", notification.body)
          ∷ ("frontend_url", mailer.frontend_url)
          ∷ [])
        none
    pure (some (append "email_notification_sent:" (mailer.str id)))

  -- the operation of `send_email_notification`
  unfoldable pub notify : (notification_id : ℕ) → Job (Option String)
  unfolding send_notification send_email
  notify id = do
    notifications ← query (λ db. orm.filter (with_notification_pk id) db.notifications)
    send_notification id notifications

  -- `send_email_notification`
  unfoldable pub mail_notification : (notification_id : ℕ) → Job (Option String)
  unfolding idempotently notify
  mail_notification id = idempotently "send_email_notification" (mailer.str id) (notify id)
