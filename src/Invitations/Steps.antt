-- ===== src/Invitations/Steps.antt =====
-- One call of the service, and what it may do to an invitation that is stored.
use django_saas_kit.Billing.Plans.{check_member_limit_exact}
use django_saas_kit.Text.{strip, lower}
use django_saas_kit.Rbac.Roles.{assign_role_frame}
use django_saas_kit.Rbac.Service.{at_user_tenant, valid_roles, is_in}
use django_saas_kit.Rbac.Permissions.{with_pk}
use django_saas_kit.Audit.{log}
use django_saas_kit.Orm.Queries.{
  filter-create, first, exists, filter-save_self, filter-save_other, filter_same,
}
use django_saas_kit.Invitations.Service.{
  pending_for, with_email, by_pk, is_member, is_expired, in_tenant, accept_found, with_token,
  dispatch_email, set_revoked, revoke_invitation, set_accepted, set_expired, accept_invitation,
  is_pending, send_invitation, Env, with_invitation_pk,
}
use django_saas_kit.Base.{
  List-cases, ◌∙◌, ◌==◌, ap, inr, inl, String, Bool-cases, List, ◌≢◌, ℕ, refl, ◌≡◌, arith, [], ◌∷◌,
  Bool, true,
}
use django_saas_kit.Orm.{Orm, ok, err, Result}
use django_saas_kit.Models.{Db, TenantInvitation, Tenant, User}
use django_saas_kit.Action.{after, Error, Action}

-- The calls of the service that write.
pub data Op : Type 0 where
  send : Env → Tenant → (email role : String) → (invited_by : User) → Op
  accept : Env → (token : String) → User → Op
  revoke : (invitation_id : ℕ) → Tenant → (revoked_by : User) → Op

-- What a call may do to an invitation.
pub data Evolves (i : TenantInvitation) : TenantInvitation → Type 0 where
  stays : Evolves i i
  expires : is_pending i.status ≡ true → Evolves i (set_expired i)
  accepts : (user : User) → is_pending i.status ≡ true → Evolves i (set_accepted user i)
  revokes : is_pending i.status ≡ true → Evolves i (set_revoked i)

-- A new row does not get the key of the invitation.
abbrev pub IsFresh : Op → TenantInvitation → Type 0
IsFresh (send env tenant email role by) i = env.uuid ≢ i.pk
IsFresh (accept env token user) i = Unit
IsFresh (revoke id tenant by) i = Unit

module _ ⦃orm : Orm⦄ where
  unfoldable pub run : Op → Db → Db
  run (send env tenant email role by) db = (send_invitation env tenant email role by db).1
  run (accept env token user) db = (accept_invitation env token user db).1
  run (revoke id tenant by) db = (revoke_invitation id tenant by db).1

  module _ (i : TenantInvitation) where
    -- `i` is the one row with its key.
    abbrev pub Stored : TenantInvitation → Db → Type 0
    Stored j db = orm.filter (with_invitation_pk i.pk) db.invitations ≡ j ∷ []

    -- The row with the key of `i` is what `i` may have become.
    abbrev Outcome : orm.Table TenantInvitation → Type 0
    Outcome t =
        (j : TenantInvitation) × Evolves i j × (orm.filter (with_invitation_pk i.pk) t ≡ j ∷ [])

    -- An assignment, on a row that a lookup has found open.
    saved_outcome :
        (q : TenantInvitation → Bool) (found : TenantInvitation) (l : List TenantInvitation)
        (f : TenantInvitation → TenantInvitation) (t t' : orm.Table TenantInvitation)
        → ((k : TenantInvitation) → (f k).pk ≡ k.pk)
        → (is_pending i.status ≡ true → Evolves i (f i))
        → orm.filter (with_invitation_pk i.pk) t ≡ i ∷ []
        → orm.filter q t ≡ found ∷ l
        → is_pending found.status ≡ true
        → t' ≡ orm.save (with_invitation_pk found.pk) f t
        → Outcome t'
    saved_outcome q found l f t t' keeps evolves stored e waiting written =
        let reads : (k : TenantInvitation)
            → with_invitation_pk i.pk (f k) ≡ with_invitation_pk i.pk k =
          λ k. ap (λ pk. pk == i.pk) (keeps k) in
        elim (Bool-cases (with_invitation_pk i.pk found)) [
          | inl same ↦
              let is_i : found ≡ i =
                filter_same (with_invitation_pk i.pk) q t l i found stored e same in
              (
                f i,
                evolves (rw (← is_i) waiting),
                rw (written, is_i, filter-save_self (with_invitation_pk i.pk) f reads t, stored)
                    refl,
              )
          | inr other ↦ (
            i,
            stays,
            rw written (
                filter-save_other (with_invitation_pk i.pk) (with_invitation_pk found.pk) f reads
                  (λ k h. ground arith) t
                ∙ stored),
          )
        ]

    -- A call that leaves the invitations as they are.
    idle_outcome :
        (t t' : orm.Table TenantInvitation)
        → orm.filter (with_invitation_pk i.pk) t ≡ i ∷ []
        → t' ≡ t
        → Outcome t'
    idle_outcome t t' stored same = (i, stays, rw same stored)

    revoke_outcome :
        (id : ℕ) (tenant : Tenant) (by : User) (db : Db)
        → Stored i db
        → Outcome (revoke_invitation id tenant by db).1.invitations
    unfolding revoke_invitation log
    revoke_outcome id tenant by db stored =
        elim (List-cases (orm.filter (in_tenant id tenant.pk) db.invitations)) [
          | inl e ↦ rw e (idle_outcome db.invitations db.invitations stored refl)
          | inr (inr (x, y, l, e)) ↦ rw e (idle_outcome db.invitations db.invitations stored refl)
          | inr (inl (found, e)) ↦ elim (Bool-cases (is_pending found.status)) [
            | inr closed ↦ rw (e, closed) (idle_outcome db.invitations db.invitations stored refl)
            | inl waiting ↦
                rw (e, waiting)
                  (saved_outcome (in_tenant id tenant.pk) found [] set_revoked db.invitations _
                    (λ k. refl) revokes stored e waiting refl)
          ]
        ]

    send_outcome :
        (env : Env) (tenant : Tenant) (email role : String) (by : User) (db : Db)
        → env.uuid ≢ i.pk
        → Stored i db
        → Outcome (send_invitation env tenant email role by db).1.invitations
    unfolding send_invitation dispatch_email
    send_outcome env tenant email role by db fresh stored =
        elim (Bool-cases (is_in role valid_roles)) [
          | inr bad ↦ rw bad (idle_outcome db.invitations db.invitations stored refl)
          | inl good ↦
              elim (Bool-cases
                (is_member tenant (first (with_email (lower (strip email))) db.users) db)) [
                  | inl joined ↦
                      rw (good, joined) (idle_outcome db.invitations db.invitations stored refl)
                  | inr outside ↦
                      elim (Bool-cases
                        (exists (pending_for tenant.pk (lower (strip email))) db.invitations)) [
                          | inl waiting ↦
                              rw (good, outside, waiting)
                                (idle_outcome db.invitations db.invitations stored refl)
                          | inr none_waiting ↦ elim (check_member_limit_exact tenant db) [
                            | inr (full, _) ↦
                                rw (good, outside, none_waiting, full)
                                  (idle_outcome db.invitations db.invitations stored refl)
                            | inl (room, _) ↦
                                rw (good, outside, none_waiting, room)
                                  (i, stays, rw filter-create (ground arith))
                          ]
                        ]
                ]
        ]

    -- The end of an acceptance, after the assignment of the role.
    joined_outcome :
        {A B : Type 0} (token : String) (user : User) (found : TenantInvitation) (db : Db)
        (m : Result Error A × Db) (rest : A → Action B)
        → Stored i db
        → orm.filter (with_token token) db.invitations ≡ found ∷ []
        → is_pending found.status ≡ true
        → m.1.invitations ≡ db.invitations
        → ((a : A) (s : Db)
            → (rest a s).1.invitations
              ≡ orm.save (with_invitation_pk found.pk) (set_accepted user) s.invitations)
        → Outcome (after m rest).1.invitations
    joined_outcome token user found db (err e, s) rest stored found_by waiting frame written =
        idle_outcome db.invitations s.invitations stored frame
    joined_outcome token user found db (ok a, s) rest stored found_by waiting frame written =
        saved_outcome (with_token token) found [] (set_accepted user) db.invitations _ (λ k. refl)
          (accepts user) stored found_by waiting (rw (← frame) (written a s))

    found_outcome :
        (env : Env) (token : String) (user : User) (db : Db) (found : TenantInvitation)
        (tenant : Tenant)
        → Stored i db
        → orm.filter (with_token token) db.invitations ≡ found ∷ []
        → Outcome (accept_found env user found tenant db).1.invitations
    unfolding accept_found log
    found_outcome env token user db found tenant stored e =
        elim (Bool-cases (is_pending found.status)) [
          | inr closed ↦ rw closed (idle_outcome db.invitations db.invitations stored refl)
          | inl waiting ↦ elim (Bool-cases (is_expired env.now found)) [
            | inl overdue ↦
                rw (waiting, overdue)
                  (saved_outcome (with_token token) found [] set_expired db.invitations _
                    (λ k. refl) expires stored e waiting refl)
            | inr in_time ↦
                elim (Bool-cases (exists (at_user_tenant user.pk found.tenant) db.roles)) [
                  | inl joined ↦
                      rw (waiting, in_time, joined)
                        (idle_outcome db.invitations db.invitations stored refl)
                  | inr outside ↦
                      rw (waiting, in_time, outside)
                        (joined_outcome token user found db _ _ stored e waiting
                          (ap (λ (s : Db). s.invitations)
                            (assign_role_frame user tenant found.role (by_pk found.invited_by db)
                              db))
                          (λ a s. refl))
                ]
          ]
        ]

    accept_outcome :
        (env : Env) (token : String) (user : User) (db : Db)
        → Stored i db
        → Outcome (accept_invitation env token user db).1.invitations
    unfolding accept_invitation
    accept_outcome env token user db stored =
        elim (List-cases (orm.filter (with_token token) db.invitations)) [
          | inl e ↦ rw e (idle_outcome db.invitations db.invitations stored refl)
          | inr (inr (x, y, l, e)) ↦ rw e (idle_outcome db.invitations db.invitations stored refl)
          | inr (inl (found, e)) ↦
              elim (List-cases (orm.filter (with_pk found.tenant) db.tenants)) [
                | inl t ↦ rw (e, t) (idle_outcome db.invitations db.invitations stored refl)
                | inr (inr (x, y, l, t)) ↦
                    rw (e, t) (idle_outcome db.invitations db.invitations stored refl)
                | inr (inl (tenant, t)) ↦
                    rw (e, t) (found_outcome env token user db found tenant stored e)
              ]
        ]

    -- Each call leaves the row with the key of `i` there, changed at most by one of the three ends,
    -- and those only while `i` is open.
    pub run-Evolves :
        (op : Op) (db : Db)
        → IsFresh op i
        → Stored i db
        → (j : TenantInvitation) × Evolves i j × Stored j (run op db)
    unfolding run
    run-Evolves (send env tenant email role by) db fresh stored =
        send_outcome env tenant email role by db fresh stored
    run-Evolves (accept env token user) db fresh stored = accept_outcome env token user db stored
    run-Evolves (revoke id tenant by) db fresh stored = revoke_outcome id tenant by db stored
