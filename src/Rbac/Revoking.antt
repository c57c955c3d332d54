-- ===== src/Rbac/Revoking.antt =====
-- What revoking a role does, and which roles pass a test for roles.
use django_saas_kit.Base.{
  suc, length, ◌||◌, ltb, select, none, is_some, List, some, if◌then◌else◌, [], inl, inr, arith,
  true, Bool-cases, false, ◌≡◌, String, ℕ,
}
use django_saas_kit.Http.{authenticated}
use django_saas_kit.Orm.{Orm, ok}
use django_saas_kit.Orm.Queries.{filter-and, filter-delete_other, filter-delete_self, count}
use django_saas_kit.Models.{Db, User, Tenant, UserTenantRole}
use django_saas_kit.Audit.{log}
use django_saas_kit.Base.{List-cases}
use django_saas_kit.Rbac.Service.{get_role, revoke_role, has_role, get_role, is_in, at_user_tenant}
use django_saas_kit.Rbac.Roles.{same_place, apart_rows, IsUnique}

module _ ⦃orm : Orm⦄ where
  deleted_rows :
      (u t : ℕ) (roles : orm.Table UserTenantRole) (u' t' : ℕ)
      → orm.filter (at_user_tenant u' t') (orm.delete (at_user_tenant u t) roles)
        ≡ (if same_place u t u' t' then [] else orm.filter (at_user_tenant u' t') roles)
  deleted_rows u t roles u' t' = elim (Bool-cases (same_place u t u' t')) [
    | inl same ↦
        let at_user : u ≡ u' = ground arith in
        let at_place : t ≡ t' = ground arith in
        rw (same, ← at_user, ← at_place) (filter-delete_self (at_user_tenant u t) roles)
    | inr apart ↦ rw apart (
        filter-delete_other (at_user_tenant u' t') (at_user_tenant u t) (apart_rows u t u' t' apart)
          roles)
  ]

  -- Revoking removes the user's rows in the tenant, and no other rows.
  revoke_role_rows :
      (user : User) (tenant : Tenant) (db : Db) (u t : ℕ)
      → orm.filter (at_user_tenant u t) (revoke_role user tenant db).1.roles ≡ (
          if same_place user.pk tenant.pk u t then [] else orm.filter (at_user_tenant u t) db.roles)
  unfolding revoke_role log
  revoke_role_rows user tenant db u t =
      elim (Bool-cases (ltb 0 (count (at_user_tenant user.pk tenant.pk) db.roles))) [
        | inl some_deleted ↦ rw some_deleted (deleted_rows user.pk tenant.pk db.roles u t)
        | inr none_deleted ↦ rw none_deleted (deleted_rows user.pk tenant.pk db.roles u t)
      ]

  -- Revoking gives no user a second row.
  pub revoke_role-IsUnique :
      (user : User) (tenant : Tenant) (db : Db)
      → IsUnique db
      → IsUnique (revoke_role user tenant db).1
  revoke_role-IsUnique user tenant db unique u t =
      elim (Bool-cases (same_place user.pk tenant.pk u t)) [
        | inl same ↦ rw (revoke_role_rows user tenant db u t, same) (omega arith)
        | inr apart ↦ rw (revoke_role_rows user tenant db u t, apart) (unique u t)
      ]

  revoke_role-ok :
      (user : User) (tenant : Tenant) (db : Db)
      → (revoke_role user tenant db).0 ≡ ok (is_some (get_role user tenant db))
  unfolding revoke_role log get_role
  revoke_role-ok user tenant db =
      elim (List-cases (orm.filter (at_user_tenant user.pk tenant.pk) db.roles)) [
        | inl e ↦ rw (e, get_role)
        | inr (inl (x, e)) ↦ rw (e, get_role)
        | inr (inr (x, y, r, e)) ↦
            let p : ltb 0 (suc (suc (length r))) ≡ true = ground arith in rw (e, get_role, p)
      ]

  -- Revoking answers whether there was a role; afterwards the user holds none in the tenant, and
  -- every other user and tenant has the role, or none, that it had.
  pub get_role-revoke_role :
      (user : User) (tenant : Tenant) (db : Db) (user' : User) (tenant' : Tenant)
      → ((revoke_role user tenant db).0 ≡ ok (is_some (get_role user tenant db)))
        × (get_role user' tenant' (revoke_role user tenant db).1 ≡ (
            if same_place user.pk tenant.pk user'.pk tenant'.pk
            then none
            else get_role user' tenant' db))
  unfolding get_role
  get_role-revoke_role user tenant db user' tenant' = (
    revoke_role-ok user tenant db,
    rw (revoke_role_rows user tenant db user'.pk tenant'.pk, get_role) (ground arith),
  )

  -- Where no user has two rows in a tenant, a user passes for a list of roles exactly when it is a
  -- superuser or the role that it holds there is on the list.
  pub has_role-eq-get_role :
      (user : User) (tenant : Tenant) (roles : List String) (db : Db)
      → IsUnique db
      → has_role (authenticated user) tenant roles db ≡ (
          user.is_superuser
          || elim (get_role user tenant db) [ none ↦ false | some r ↦ is_in r roles ])
  unfolding has_role get_role select
  has_role-eq-get_role user tenant roles db unique =
      elim (List-cases (orm.filter (at_user_tenant user.pk tenant.pk) db.roles)) [
        | inl e ↦
            rw
              (
                filter-and (at_user_tenant user.pk tenant.pk) (λ r. is_in r.role roles) db.roles,
                e,
                get_role,
              )
              (ground arith)
        | inr (inl (x, e)) ↦
            rw
              (
                filter-and (at_user_tenant user.pk tenant.pk) (λ r. is_in r.role roles) db.roles,
                e,
                get_role,
              )
              (ground arith)
        | inr (inr (x, y, r, e)) ↦
            absurd (let k = rw e at (unique user.pk tenant.pk) in omega arith)
      ]
