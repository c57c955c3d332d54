-- ===== src/Rbac/Roles.antt =====
-- What assigning a role does to the roles that users hold.
use django_saas_kit.Base.{
  ap, some, if◌then◌else◌, refl, [], inl, ◌∷◌, inr, arith, true, Bool-cases, ◌&&◌, ◌==◌, false,
  Option, ◌≡◌, Bool, String, ℕ, ◌≤◌,
}
use django_saas_kit.Orm.{Orm, ok, err}
use django_saas_kit.Orm.Queries.{filter-save_self, filter-save_other, filter-create, count}
use django_saas_kit.Models.{Db, User, Tenant, UserTenantRole}
use django_saas_kit.Audit.{log}
use django_saas_kit.Action.{invalid_role}
use django_saas_kit.Base.{List-cases}
use django_saas_kit.Rbac.Service.{
  get_role, get_role, pk_of, new_role, assigned, upsert_role, valid_roles, is_in, at_user_tenant,
  assign_role,
}

-- The same user in the same tenant.
abbrev pub same_place : ℕ → ℕ → ℕ → ℕ → Bool
same_place u t u' t' = u == u' && t == t'

pub apart_rows :
    (u t u' t' : ℕ)
    → same_place u t u' t' ≡ false
    → (r : UserTenantRole) → at_user_tenant u' t' r ≡ true
    → at_user_tenant u t r ≡ false
apart_rows u t u' t' h r e = ground arith

module _ ⦃orm : Orm⦄ where
  -- No user has two rows in one tenant (`unique_together`).
  abbrev pub IsUnique : Db → Type 0
  IsUnique db = (u t : ℕ) → count (at_user_tenant u t) db.roles ≤ 1

  module _ (user : User) (tenant : Tenant) (role : String) (by : Option User) (db : Db) where
    -- An unknown role raises, and nothing is written.
    pub assign_role_invalid :
        is_in role valid_roles ≡ false → assign_role user tenant role by db ≡ (err invalid_role, db)
    unfolding assign_role
    assign_role_invalid h = rw h

    -- Where a lookup selects other rows, an assignment leaves its rows as they were.
    pub assign_role_other_rows :
        (u' t' : ℕ)
        → same_place user.pk tenant.pk u' t' ≡ false
        → orm.filter (at_user_tenant u' t') (assign_role user tenant role by db).1.roles
          ≡ orm.filter (at_user_tenant u' t') db.roles
    unfolding assign_role log upsert_role
    assign_role_other_rows u' t' h = elim (Bool-cases (is_in role valid_roles)) [
      | inr bad ↦ rw bad
      | inl good ↦ elim (List-cases (orm.filter (at_user_tenant user.pk tenant.pk) db.roles)) [
        | inl new ↦ rw (good, new, upsert_role, filter-create) (ground arith)
        | inr (inl (found, one)) ↦
            rw (good, one, upsert_role)
              (filter-save_other (at_user_tenant u' t') (at_user_tenant user.pk tenant.pk)
                (assigned role (pk_of by)) (λ r. refl) (apart_rows user.pk tenant.pk u' t' h)
                db.roles)
        | inr (inr (x, y, r, many)) ↦ rw (good, many, upsert_role)
      ]
    ]

    -- The row that a valid assignment leaves for its user and tenant, which it returns.
    pub assign_role_rows :
        is_in role valid_roles ≡ true
        → count (at_user_tenant user.pk tenant.pk) db.roles ≤ 1
        → (row : UserTenantRole) × (orm.filter
              (at_user_tenant user.pk tenant.pk)
              (assign_role user tenant role by db).1.roles
            ≡ row ∷ [])
          × (row.role ≡ role)
          × ((assign_role user tenant role by db).0 ≡ ok row)
    unfolding assign_role log upsert_role
    assign_role_rows good h =
        elim (List-cases (orm.filter (at_user_tenant user.pk tenant.pk) db.roles)) [
          | inl new ↦
              rw (good, new, upsert_role)
                (
                  new_role user tenant role (pk_of by),
                  rw (filter-create, new) (ground arith),
                  refl,
                  refl,
                )
          | inr (inl (found, one)) ↦
              rw (good, one, upsert_role)
                (
                  assigned role (pk_of by) found,
                  rw
                      (
                        filter-save_self (at_user_tenant user.pk tenant.pk)
                            (assigned role (pk_of by)) (λ r. refl) db.roles,
                        one,
                      )
                      refl,
                  refl,
                  refl,
                )
          | inr (inr (x, y, r, many)) ↦ absurd (let k = rw many at h in omega arith)
        ]

    -- A user with no role in the tenant gets a new row.
    pub assign_role_new :
        is_in role valid_roles ≡ true
        → orm.filter (at_user_tenant user.pk tenant.pk) db.roles ≡ []
        → assign_role user tenant role by db ≡ (
          ok (new_role user tenant role (pk_of by)),
          record db {
            roles = orm.create (new_role user tenant role (pk_of by)) db.roles;
            audit_logs = (assign_role user tenant role by db).1.audit_logs;
          },
        )
    unfolding assign_role log upsert_role
    assign_role_new good new = rw (good, new, upsert_role)

    -- An assignment writes the roles and the audit log, and no other table.
    pub assign_role_frame : (assign_role user tenant role by db).1 ≡ record db {
      roles = (assign_role user tenant role by db).1.roles;
      audit_logs = (assign_role user tenant role by db).1.audit_logs;
    }
    unfolding assign_role log upsert_role
    assign_role_frame = elim (Bool-cases (is_in role valid_roles)) [
      | inr bad ↦ rw bad
      | inl good ↦ elim (List-cases (orm.filter (at_user_tenant user.pk tenant.pk) db.roles)) [
        | inl new ↦ rw (good, new, upsert_role)
        | inr (inl (found, one)) ↦ rw (good, one, upsert_role)
        | inr (inr (x, y, r, many)) ↦ rw (good, many, upsert_role)
      ]
    ]

    assign_role_rows_at :
        (u t : ℕ)
        → same_place user.pk tenant.pk u t ≡ true
        → is_in role valid_roles ≡ true
        → count (at_user_tenant user.pk tenant.pk) db.roles ≤ 1
        → (row : UserTenantRole) × (orm.filter
              (at_user_tenant u t)
              (assign_role user tenant role by db).1.roles
            ≡ row ∷ [])
          × (row.role ≡ role)
    assign_role_rows_at u t same good h =
        let (row, rows, held, returned) = assign_role_rows good h in
        let at_user : user.pk ≡ u = ground arith in
        let at_place : tenant.pk ≡ t = ground arith in (row, rw (← at_user, ← at_place) rows, held)

    -- A valid assignment makes the user hold exactly that role in the tenant; every other user and
    -- tenant has the role, or none, that it had.
    pub get_role-assign_role :
        is_in role valid_roles ≡ true
        → IsUnique db
        → (user' : User) (tenant' : Tenant)
        → get_role user' tenant' (assign_role user tenant role by db).1 ≡ (
            if same_place user.pk tenant.pk user'.pk tenant'.pk
            then some role
            else get_role user' tenant' db)
    unfolding get_role
    get_role-assign_role good unique user' tenant' =
        elim (Bool-cases (same_place user.pk tenant.pk user'.pk tenant'.pk)) [
          | inl same ↦
              let (row, rows, held) =
                assign_role_rows_at user'.pk tenant'.pk same good (unique user.pk tenant.pk) in
              rw (same, rows, get_role) (ap some held)
          | inr apart ↦ rw (apart, assign_role_other_rows user'.pk tenant'.pk apart, get_role)
        ]

    -- No assignment, valid or not, gives a user a second row in a tenant.
    pub assign_role-IsUnique : IsUnique db → IsUnique (assign_role user tenant role by db).1
    assign_role-IsUnique unique u t = elim (Bool-cases (is_in role valid_roles)) [
      | inr bad ↦ rw (assign_role_invalid bad) (unique u t)
      | inl good ↦ elim (Bool-cases (same_place user.pk tenant.pk u t)) [
        | inl same ↦
            let (row, rows, held) = assign_role_rows_at u t same good (unique user.pk tenant.pk) in
            rw rows (omega arith)
        | inr apart ↦ rw (assign_role_other_rows u t apart) (unique u t)
      ]
    ]
