-- ===== src/Invitations/Emailed.antt =====
-- From an invitation to the email with its link.
use django_saas_kit.Base.{inl, inr, ℕ, String, some, [], ◌∷◌, ◌++◌, ◌≡◌, refl, eq_iff}
use django_saas_kit.Orm.{Orm, ok}
use django_saas_kit.Orm.Queries.{first, filter-create}
use django_saas_kit.Cache.{Cache}
use django_saas_kit.Text.{strip, lower}
use django_saas_kit.Models.{User, Tenant}
use django_saas_kit.Invitations.Service.{
  Env, new_invitation, send_invitation, with_token, invitation_task, accept_url, inviter_name,
}
use django_saas_kit.Invitations.Sending.{Sendable, send_invitation_exact}
use django_saas_kit.Mail.{Email, Mailer, Post}
use django_saas_kit.Mail.Tasks.{invitation_email, mail_invitation}
use django_saas_kit.Mail.Worker.{work, turn, perform}
use django_saas_kit.Mail.Delivery.{TakenAt, with_retries-Sends, Sends}

module _ ⦃orm : Orm⦄ ⦃cache : Cache String⦄ (mailer : Mailer) where
  mail_invitation-Sends :
      (to name by role url : String) (post : Post)
      → Sends mailer
          (invitation_email mailer to name by role url)
          tt
          (λ now. mail_invitation mailer now to name by role url)
          post
  mail_invitation-Sends to name by role url post now =
      ((λ accepted. rw accepted refl), (λ down. rw down refl))

  -- An invitation that may be sent, with an empty queue, is followed by a turn of a worker. Where the
  -- mail server is down in the first runs and then takes emails, in one of the four runs, one email
  -- is sent, to the normalised address alone and with the link of the new token; the invitation is
  -- stored, and is what the token finds, and nothing else is written.
  pub invitation_emailed :
      (env : Env) (tenant : Tenant) (raw_email role : String) (by : User) (post : Post)
      (clock : ℕ → ℕ) (k : ℕ)
      → Sendable env tenant raw_email role by post.db
      → post.db.queue ≡ []
      → ((email : Email) → TakenAt mailer clock email k)
      → let (r, db1) = send_invitation env tenant raw_email role by post.db in
        let post2 = work mailer clock (record post { db = db1 }) in
        let i = new_invitation env tenant (lower (strip raw_email)) role by in
        let email =
          invitation_email mailer i.email tenant.name
            (inviter_name by)
            role
            (accept_url env.frontend_url env.token) in
        (r ≡ ok i)
        × (post2.sent ≡ post.sent ++ email ∷ [])
        × (email.recipients ≡ lower (strip raw_email) ∷ [])
        × (post2.db ≡ record post.db { invitations = orm.create i post.db.invitations })
        × (first (with_token env.token) post2.db.invitations ≡ some i)
  unfolding work turn perform invitation_task invitation_email
  invitation_emailed env tenant raw_email role by post clock k may idle taken =
      let i = new_invitation env tenant (lower (strip raw_email)) role by in
      let post1 : Post = record post {
        db = record post.db { invitations = orm.create i post.db.invitations; queue = [] };
      } in
      let url = accept_url env.frontend_url env.token in
      let delivered =
        with_retries-Sends mailer clock k
          (invitation_email mailer i.email tenant.name (inviter_name by) role url) tt
          (λ now. mail_invitation mailer now i.email tenant.name (inviter_name by) role url) post1
          (mail_invitation-Sends i.email tenant.name (inviter_name by) role url post1) (taken _) in
      elim (send_invitation_exact env tenant raw_email role by post.db) [
        | inr (never, error, failed) ↦ absurd (never may)
        | inl (again, e) ↦
            rw (e, idle, delivered)
              (refl, refl, refl, refl, rw (filter-create, (eq_iff env.token env.token).1 refl) refl)
      ]
