-- ===== src/Invitations/Joining.antt =====
-- What accepting an invitation does, on every branch.
use django_saas_kit.Rbac.Roles.{assign_role_new}
use django_saas_kit.Billing.Plans.{get_member_count}
use django_saas_kit.Audit.{log}
use django_saas_kit.Rbac.Service.{get_role, valid_roles, is_in, at_user_tenant}
use django_saas_kit.Rbac.Permissions.{with_pk}
use django_saas_kit.Orm.Queries.{filter-save_stable, filter-create, filter_pass, exists}
use django_saas_kit.Invitations.Service.{
  with_invitation_pk, by_pk, set_accepted, is_usable, set_expired, save_invitation, is_expired,
  is_pending, accept_found, with_token, accept_invitation, Env,
}
use django_saas_kit.Base.{
  ==_refl, suc, some, inl, inr, Bool-cases, if◌then◌else◌, not, ◌&&◌, String, refl, ◌≡◌, arith, [],
  ◌∷◌, Bool, true, false,
}
use django_saas_kit.Orm.{Orm, ok, err}
use django_saas_kit.Models.{Db, TenantInvitation, Tenant, User}
use django_saas_kit.Action.{already_member, invitation_expired, invitation_used}

module _ ⦃orm : Orm⦄ (env : Env) (token : String) (user : User) (i : TenantInvitation)
    (tenant : Tenant) (db : Db) where
  -- The token is that of the one invitation `i`, whose tenant is `tenant`.
  pub record Invited : Type 0 where
    pub by_token : orm.filter (with_token token) db.invitations ≡ i ∷ []
    pub to_tenant : orm.filter (with_pk i.tenant) db.tenants ≡ tenant ∷ []

  abbrev pub is_joined : Bool
  is_joined = exists (at_user_tenant user.pk i.tenant) db.roles

  accept_at : Invited → accept_invitation env token user db ≡ accept_found env user i tenant db
  unfolding accept_invitation
  accept_at h = rw (h.by_token, h.to_tenant)

  -- A token that was used or revoked is refused, and so is one of a tenant that the user has joined;
  -- an overdue invitation is refused and stays marked as expired. None of this writes a role.
  pub accept_invitation_refused :
      Invited
      → (is_pending i.status && not (is_expired env.now i) && not is_joined) ≡ false
      → accept_invitation env token user db ≡ (
          if not (is_pending i.status)
          then (err invitation_used, db)
          else if is_expired env.now i
          then (err invitation_expired, save_invitation i set_expired db)
          else (err already_member, db))
  unfolding accept_found
  accept_invitation_refused h refused = rw (accept_at h) (elim (Bool-cases (is_pending i.status)) [
    | inr closed ↦ rw closed
    | inl waiting ↦ elim (Bool-cases (is_expired env.now i)) [
      | inl overdue ↦ rw (waiting, overdue)
      | inr in_time ↦ elim (Bool-cases is_joined) [
        | inl joined ↦ rw (waiting, in_time, joined)
        | inr outside ↦ absurd (cc (rw (waiting, in_time, outside) at refused))
      ]
    ]
  ])

  -- A usable invitation, accepted by a user who is not yet in the tenant, returns normally: the user
  -- then holds the invitation's role in the tenant, the tenant has one member more, and the
  -- invitation is marked as accepted by the user.
  pub accept_invitation_joins :
      Invited
      → is_usable env.now i ≡ true
      → orm.filter (at_user_tenant user.pk i.tenant) db.roles ≡ []
      → is_in i.role valid_roles ≡ true
      → let (r, db') = accept_invitation env token user db in
        (r ≡ ok (set_accepted user i))
        × (get_role user tenant db' ≡ some i.role)
        × (get_member_count tenant db' ≡ suc (get_member_count tenant db))
        × (orm.filter (with_token token) db'.invitations ≡ set_accepted user i ∷ [])
        × (db'.tenants ≡ db.tenants)
  unfolding accept_found is_usable log
  accept_invitation_joins h usable outside good =
      let waiting : is_pending i.status ≡ true = ground arith in
      let in_time : is_expired env.now i ≡ false = ground arith in
      let same_tenant : tenant.pk ≡ i.tenant =
        ground (arith, filter_pass (with_pk i.tenant) db.tenants [] tenant h.to_tenant) in
      let new : orm.filter (at_user_tenant user.pk tenant.pk) db.roles ≡ [] =
        rw same_tenant outside in
      rw
        (
          accept_at h,
          waiting,
          in_time,
          outside,
          assign_role_new user tenant i.role (by_pk i.invited_by db) db good new,
        )
        (
          refl,
          unfold get_role in rw (filter-create, ==_refl user.pk, ==_refl tenant.pk, get_role),
          unfold get_member_count in rw (filter-create, ==_refl tenant.pk),
          rw (
            filter-save_stable (with_token token) (with_invitation_pk i.pk) (set_accepted user)
                (λ r. refl) db.invitations,
            h.by_token,
            ==_refl i.pk,
          ),
          refl,
        )
