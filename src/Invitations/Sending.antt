-- ===== src/Invitations/Sending.antt =====
-- When an invitation is sent, and what sending it writes.
use django_saas_kit.Billing.Plans.{check_member_limit_exact, get_member_count, get_plan, HasRoom}
use django_saas_kit.Action.{
  plan_limit_exceeded, pending_exists, already_member, invalid_role, Error,
}
use django_saas_kit.Orm.Queries.{exists}
use django_saas_kit.Orm.Queries.{exists, first}
use django_saas_kit.Text.{strip, lower}
use django_saas_kit.Rbac.Service.{valid_roles, is_in}
use django_saas_kit.Models.{Db, User, Tenant}
use django_saas_kit.Invitations.Service.{
  invitation_task, pending_for, with_email, is_member, new_invitation, dispatch_email,
  send_invitation, Env,
}
use django_saas_kit.Orm.{err, ok, Orm}
use django_saas_kit.Base.{Bool-cases, ◌⊎◌, ◌++◌, false, true, String, [], ◌∷◌, ◌≡◌, inl, inr}

module _ ⦃orm : Orm⦄ (env : Env) (tenant : Tenant) (raw_email role : String) (by : User)
    (db : Db) where
  -- The role is known, the invitee is no member, has no pending invitation, and the plan has room.
  abbrev pub Sendable : Type 0
  Sendable =
      (is_in role valid_roles ≡ true)
      × (is_member tenant (first (with_email (lower (strip raw_email))) db.users) db ≡ false)
      × (exists (pending_for tenant.pk (lower (strip raw_email))) db.invitations ≡ false)
      × HasRoom (get_plan tenant db) (get_member_count tenant db)

  -- An invitation is sent exactly where it may be: then one pending invitation for the address, with
  -- its spaces stripped and in lower case, is stored, and one email with its token is queued, and
  -- nothing else is written. Otherwise the call raises, and nothing is written.
  pub send_invitation_exact :
      let i = new_invitation env tenant (lower (strip raw_email)) role by in
      (Sendable
        × (send_invitation env tenant raw_email role by db ≡ (
          ok i,
          record db {
            invitations = orm.create i db.invitations;
            queue = db.queue ++ invitation_task env.frontend_url i tenant by ∷ [];
          },
        )))
      ⊎ ((¬ Sendable)
          × (e : Error) × (send_invitation env tenant raw_email role by db ≡ (err e, db)))
  unfolding send_invitation dispatch_email
  send_invitation_exact = elim (Bool-cases (is_in role valid_roles)) [
    | inr bad ↦ inr ((λ h. cc (bad, h.0)), invalid_role, rw bad)
    | inl good ↦
        elim (Bool-cases
          (is_member tenant (first (with_email (lower (strip raw_email))) db.users) db)) [
            | inl joined ↦ inr ((λ h. cc (joined, h.1)), already_member, rw (good, joined))
            | inr outside ↦
                elim (Bool-cases
                  (exists (pending_for tenant.pk (lower (strip raw_email))) db.invitations)) [
                    | inl waiting ↦
                        inr ((λ h. cc (waiting, h.2)), pending_exists, rw (good, outside, waiting))
                    | inr free ↦ elim (check_member_limit_exact tenant db) [
                      | inr (full, no_room) ↦
                          inr (
                            (λ h. no_room h.3),
                            plan_limit_exceeded,
                            rw (good, outside, free, full),
                          )
                      | inl (passes, room) ↦
                          inl ((good, outside, free, room), rw (good, outside, free, passes))
                    ]
                  ]
          ]
  ]
