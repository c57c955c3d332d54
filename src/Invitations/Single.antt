-- ===== src/Invitations/Single.antt =====
-- No address has two open invitations to one tenant.
use django_saas_kit.Rbac.Roles.{assign_role_frame}
use django_saas_kit.Text.{strip, lower}
use django_saas_kit.Rbac.Service.{at_user_tenant}
use django_saas_kit.Rbac.Permissions.{with_pk}
use django_saas_kit.Invitations.Sending.{send_invitation_exact}
use django_saas_kit.Action.{after, Action, Error}
use django_saas_kit.Audit.{log}
use django_saas_kit.Invitations.Lifecycle.{run_all}
use django_saas_kit.Invitations.Steps.{revoke, accept, send, Op, run}
use django_saas_kit.Invitations.Service.{
  by_pk, set_accepted, set_revoked, set_expired, with_invitation_pk, with_token, is_expired,
  in_tenant, pending_for, send_invitation, is_pending, revoke_invitation, accept_found,
  accept_invitation, Env,
}
use django_saas_kit.Models.{Tenant, TenantInvitation, Db, User}
use django_saas_kit.Orm.{ok, err, Result, Orm}
use django_saas_kit.Base.{
  eq_iff, str_eq, ◌&&◌, ◌==◌, List-cases, false, Bool-cases, String, suc, ◌≤◌, ℕ, ap, true, Bool,
  List, [], ◌∷◌, refl, ◌≡◌, inl, inr, arith, length, map, select,
}
use django_saas_kit.Orm.Queries.{saved, filter-save, filter-create, exists_none, count, exists}

length-map : {R : Type 0} (f : R → R) (l : List R) → length (map f l) ≡ length l
length-map f [] = refl
length-map f (r ∷ l) = ap suc (length-map f l)

-- Where every row that passes `p` passes `q`, no more rows pass `p` than `q`.
length-select_le :
    {R : Type 0} (p q : R → Bool)
    → ((r : R) → p r ≡ true → q r ≡ true)
    → (l : List R) → length (select p l) ≤ length (select q l)
unfolding select
length-select_le p q h [] = omega arith
length-select_le p q h (r ∷ l) = ground (arith, h r, length-select_le p q h l)

module _ ⦃orm : Orm⦄ where
  -- Each address has at most one open invitation to a tenant, which no constraint of the table says.
  abbrev pub IsSingle : Db → Type 0
  IsSingle db = (tenant : ℕ) (email : String) → count (pending_for tenant email) db.invitations ≤ 1

  -- Of the invitations `t'` no more are open for an address than of `t`.
  abbrev Shrinks : orm.Table TenantInvitation → orm.Table TenantInvitation → Type 0
  Shrinks t t' =
      (tenant : ℕ) (email : String)
      → count (pending_for tenant email) t' ≤ count (pending_for tenant email) t

  Shrinks-refl : (t t' : orm.Table TenantInvitation) → t' ≡ t → Shrinks t t'
  Shrinks-refl t t' same tenant email = rw same (omega arith)

  -- An assignment that ends invitations opens none.
  save-Shrinks :
      (q : TenantInvitation → Bool) (f : TenantInvitation → TenantInvitation)
      (t t' : orm.Table TenantInvitation)
      → ((k : TenantInvitation) → is_pending (f k).status ≡ false)
      → t' ≡ orm.save q f t
      → Shrinks t t'
  save-Shrinks q f t t' ends written tenant email =
      rw
        (
          written,
          filter-save,
          length-map (saved q f),
          orm.filter_lem (λ k. pending_for tenant email (saved q f k)),
          orm.filter_lem (pending_for tenant email),
        )
        (length-select_le (λ k. pending_for tenant email (saved q f k)) (pending_for tenant email)
          (λ k h. ground (arith, ends k)) (orm.all t))

  revoke-Shrinks :
      (id : ℕ) (tenant : Tenant) (by : User) (db : Db)
      → Shrinks db.invitations (revoke_invitation id tenant by db).1.invitations
  unfolding revoke_invitation log
  revoke-Shrinks id tenant by db =
      elim (List-cases (orm.filter (in_tenant id tenant.pk) db.invitations)) [
        | inl e ↦ rw e (Shrinks-refl db.invitations _ refl)
        | inr (inr (x, y, l, e)) ↦ rw e (Shrinks-refl db.invitations _ refl)
        | inr (inl (found, e)) ↦ elim (Bool-cases (is_pending found.status)) [
          | inr closed ↦ rw (e, closed) (Shrinks-refl db.invitations _ refl)
          | inl waiting ↦
              rw (e, waiting)
                (save-Shrinks (with_invitation_pk found.pk) set_revoked db.invitations _ (λ k. refl)
                  refl)
        ]
      ]

  -- The end of an acceptance, after the assignment of the role.
  joined-Shrinks :
      {A B : Type 0} (user : User) (pk : ℕ) (t : orm.Table TenantInvitation)
      (m : Result Error A × Db) (rest : A → Action B)
      → m.1.invitations ≡ t
      → ((a : A) (s : Db)
          → (rest a s).1.invitations
            ≡ orm.save (with_invitation_pk pk) (set_accepted user) s.invitations)
      → Shrinks t (after m rest).1.invitations
  joined-Shrinks user pk t (err e, s) rest frame written = Shrinks-refl t s.invitations frame
  joined-Shrinks user pk t (ok a, s) rest frame written =
      save-Shrinks (with_invitation_pk pk) (set_accepted user) t _ (λ k. refl)
        (rw (← frame) (written a s))

  found-Shrinks :
      (env : Env) (user : User) (found : TenantInvitation) (tenant : Tenant) (db : Db)
      → Shrinks db.invitations (accept_found env user found tenant db).1.invitations
  unfolding accept_found log
  found-Shrinks env user found tenant db = elim (Bool-cases (is_pending found.status)) [
    | inr closed ↦ rw closed (Shrinks-refl db.invitations _ refl)
    | inl waiting ↦ elim (Bool-cases (is_expired env.now found)) [
      | inl overdue ↦
          rw (waiting, overdue)
            (save-Shrinks (with_invitation_pk found.pk) set_expired db.invitations _ (λ k. refl)
              refl)
      | inr in_time ↦ elim (Bool-cases (exists (at_user_tenant user.pk found.tenant) db.roles)) [
        | inl joined ↦ rw (waiting, in_time, joined) (Shrinks-refl db.invitations _ refl)
        | inr outside ↦
            rw (waiting, in_time, outside)
              (joined-Shrinks user found.pk db.invitations _ _
                (ap (λ (s : Db). s.invitations)
                  (assign_role_frame user tenant found.role (by_pk found.invited_by db) db))
                (λ a s. refl))
      ]
    ]
  ]

  accept-Shrinks :
      (env : Env) (token : String) (user : User) (db : Db)
      → Shrinks db.invitations (accept_invitation env token user db).1.invitations
  unfolding accept_invitation
  accept-Shrinks env token user db =
      elim (List-cases (orm.filter (with_token token) db.invitations)) [
        | inl e ↦ rw e (Shrinks-refl db.invitations _ refl)
        | inr (inr (x, y, l, e)) ↦ rw e (Shrinks-refl db.invitations _ refl)
        | inr (inl (found, e)) ↦ elim (List-cases (orm.filter (with_pk found.tenant) db.tenants)) [
          | inl t ↦ rw (e, t) (Shrinks-refl db.invitations _ refl)
          | inr (inr (x, y, l, t)) ↦ rw (e, t) (Shrinks-refl db.invitations _ refl)
          | inr (inl (tenant, t)) ↦ rw (e, t) (found-Shrinks env user found tenant db)
        ]
      ]

  send-IsSingle :
      (env : Env) (tenant : Tenant) (raw_email role : String) (by : User) (db : Db)
      → IsSingle db
      → IsSingle (send_invitation env tenant raw_email role by db).1
  send-IsSingle env tenant raw_email role by db single t email =
      elim (send_invitation_exact env tenant raw_email role by db) [
        | inr (refused, e, raised) ↦ rw raised (single t email)
        | inl ((good, outside, free, room), sent) ↦
            rw (sent, filter-create)
              (elim (Bool-cases (tenant.pk == t && str_eq (lower (strip raw_email)) email)) [
                | inr other ↦ rw other (let h = single t email in ground arith)
                | inl same ↦
                    let q : str_eq (lower (strip raw_email)) email ≡ true = ground arith in
                    let p : lower (strip raw_email) ≡ email =
                      (eq_iff (lower (strip raw_email)) email).0 q in
                    let place : tenant.pk ≡ t = ground arith in
                    let none_open : orm.filter (pending_for t email) db.invitations ≡ [] =
                      rw (← place, ← p)
                        (exists_none (pending_for tenant.pk (lower (strip raw_email)))
                          db.invitations free) in
                    rw none_open (ground arith)
              ])
      ]

  run-IsSingle : (op : Op) (db : Db) → IsSingle db → IsSingle (run op db)
  unfolding run
  run-IsSingle (send env tenant email role by) db single t address =
      send-IsSingle env tenant email role by db single t address
  run-IsSingle (accept env token user) db single t email =
      omega (arith, accept-Shrinks env token user db t email, single t email)
  run-IsSingle (revoke id tenant by) db single t email =
      omega (arith, revoke-Shrinks id tenant by db t email, single t email)

  -- Over any calls that send, accept and revoke invitations, whatever they return or raise: where no
  -- address had two open invitations to one tenant, none gets two.
  pub run_all-IsSingle : (ops : List Op) (db : Db) → IsSingle db → IsSingle (run_all ops db)
  unfolding run_all
  run_all-IsSingle [] db single = single
  run_all-IsSingle (op ∷ ops) db single =
      run_all-IsSingle ops (run op db) (run-IsSingle op db single)
