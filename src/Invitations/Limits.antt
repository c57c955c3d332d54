-- ===== src/Invitations/Limits.antt =====
-- What the service does not prevent: a token is used once, but the member limit is checked when an
-- invitation is sent, and not when it is accepted.
use django_saas_kit.Action.{plan_limit_exceeded, invitation_used}
use django_saas_kit.Billing.Plans.{
  HasRoom, check_member_limit_exact, check_member_limit, get_member_count, get_plan,
}
use django_saas_kit.Rbac.Service.{valid_roles, is_in, at_user_tenant}
use django_saas_kit.Invitations.Service.{set_accepted, accept_invitation, is_usable, Env}
use django_saas_kit.Base.{arith, inr, inl, ◌≢◌, String, refl, ◌≡◌, [], true, ◌<◌, some}
use django_saas_kit.Orm.{Orm, err}
use django_saas_kit.Models.{Db, TenantInvitation, Tenant, User, Plan}
use django_saas_kit.Invitations.Joining.{
  accept_invitation_refused, accept_invitation_joins, Invited,
}

module _ ⦃orm : Orm⦄ (env : Env) (token : String) (user : User) (i : TenantInvitation)
    (tenant : Tenant) (db : Db) where
  -- An invitation that has been accepted is refused to everybody, at any later time, and nothing is
  -- written.
  pub accept_invitation_once :
      (env' : Env) (user' : User)
      → Invited env token user i tenant db
      → is_usable env.now i ≡ true
      → orm.filter (at_user_tenant user.pk i.tenant) db.roles ≡ []
      → is_in i.role valid_roles ≡ true
      → let db' = (accept_invitation env token user db).1 in
        accept_invitation env' token user' db' ≡ (err invitation_used, db')
  accept_invitation_once env' user' h usable outside good =
      let (r, role, members, rows, tenants) =
        accept_invitation_joins env token user i tenant db h usable outside good in
      let later : Invited env' token user' (set_accepted user i) tenant
          (accept_invitation env token user db).1 =
        record { by_token = rows; to_tenant = rw tenants h.to_tenant } in
      accept_invitation_refused env' token user' (set_accepted user i) tenant _ later refl

  -- In a tenant whose plan is full, a usable invitation still lets a new user in, past the limit.
  pub accept_invitation_exceeds :
      (plan : Plan)
      → Invited env token user i tenant db
      → is_usable env.now i ≡ true
      → orm.filter (at_user_tenant user.pk i.tenant) db.roles ≡ []
      → is_in i.role valid_roles ≡ true
      → get_plan tenant db ≡ some plan
      → plan.max_members ≢ 0
      → get_member_count tenant db ≡ plan.max_members
      → let db' = (accept_invitation env token user db).1 in
        (check_member_limit tenant db ≡ (err plan_limit_exceeded, db))
        × (plan.max_members < get_member_count tenant db')
  accept_invitation_exceeds plan h usable outside good has_plan limited full =
      let (r, role, members, rows, tenants) =
        accept_invitation_joins env token user i tenant db h usable outside good in
      let no_room : HasRoom (some plan) (get_member_count tenant db) → ⊥ =
        λ h. elim h [ inl e ↦ limited e | inr less ↦ omega arith ] in
      (
        (elim (check_member_limit_exact tenant db) [
          | inl (passes, room) ↦ absurd (no_room (rw has_plan at room))
          | inr (refused, full) ↦ refused
        ]),
        rw (members, full) (omega arith),
      )
