-- ===== src/Rbac/Refinement.antt =====
-- The role service as a map from users and tenants to roles.
use django_saas_kit.Base.{
  Option-cases, refl, if◌then◌else◌, [], ◌∷◌, inl, inr, false, Bool-cases, ◌≡◌, String, ℕ, Option,
  none, some, List, Bool, is_some, ◌||◌,
}
use django_saas_kit.Http.{authenticated}
use django_saas_kit.Orm.{Orm, ok, err, Result}
use django_saas_kit.Action.{invalid_role, Error}
use django_saas_kit.Models.{Db, User, Tenant, UserTenantRole}
use django_saas_kit.Rbac.Service.{get_role, revoke_role, has_role, assign_role, is_in, valid_roles}
use django_saas_kit.Rbac.Roles.{
  same_place, IsUnique, get_role-assign_role, assign_role-IsUnique, assign_role_rows,
  assign_role_invalid,
}
use django_saas_kit.Rbac.Revoking.{get_role-revoke_role, has_role-eq-get_role, revoke_role-IsUnique}

-- A call of the service, and what its caller sees.
pub data Call : Type 0 where
  assign : User → Tenant → (role : String) → (by : Option User) → Call
  revoke : User → Tenant → Call
  ask_role : User → Tenant → Call
  ask_any : User → Tenant → (roles : List String) → Call

pub data Seen : Type 0 where
  assigned_role : String → Seen
  refused : Error → Seen
  answered : Bool → Seen
  role_held : Option String → Seen

-- The abstract state: the role, if any, of a user in a tenant, by their keys.
abbrev pub Holdings : Type 0
Holdings = ℕ → ℕ → Option String

abbrev pub put : User → Tenant → Option String → Holdings → Holdings
put user tenant role held u t = if same_place user.pk tenant.pk u t then role else held u t

abbrev holds_any : List String → Option String → Bool
holds_any roles none = false
holds_any roles (some role) = is_in role roles

-- What the service promises, on the map.
abbrev pub promised : Call → Holdings → Seen × Holdings
promised (assign user tenant role by) held =
    if is_in role valid_roles
    then (assigned_role role, put user tenant (some role) held)
    else (refused invalid_role, held)
promised (revoke user tenant) held =
    (answered (is_some (held user.pk tenant.pk)), put user tenant none held)
promised (ask_role user tenant) held = (role_held (held user.pk tenant.pk), held)
promised (ask_any user tenant roles) held =
    (answered (user.is_superuser || holds_any roles (held user.pk tenant.pk)), held)

-- A run of calls, each on the state that the one before left.
abbrev pub replies_of : {S : Type 0} → (Call → S → Seen × S) → List Call → S → List Seen × S
replies_of step [] s = ([], s)
replies_of step (call ∷ calls) s =
    let (seen, s') = step call s in
    let (rest, last) = replies_of step calls s' in (seen ∷ rest, last)

module _ ⦃orm : Orm⦄ where
  abbrev seen_assignment : Result Error UserTenantRole × Db → Seen × Db
  seen_assignment (ok row, db) = (assigned_role row.role, db)
  seen_assignment (err e, db) = (refused e, db)

  abbrev seen_revocation : Result Error Bool × Db → Seen × Db
  seen_revocation (ok deleted, db) = (answered deleted, db)
  seen_revocation (err e, db) = (refused e, db)

  -- The calls of `RBACService`.
  unfoldable pub served : Call → Db → Seen × Db
  served (assign user tenant role by) db = seen_assignment (assign_role user tenant role by db)
  served (revoke user tenant) db = seen_revocation (revoke_role user tenant db)
  served (ask_role user tenant) db = (role_held (get_role user tenant db), db)
  served (ask_any user tenant roles) db =
      (answered (has_role (authenticated user) tenant roles db), db)

  -- The table stands for the map.
  abbrev pub Represents : Holdings → Db → Type 0
  Represents held db =
      IsUnique db
      × ((user : User) (tenant : Tenant) → get_role user tenant db ≡ held user.pk tenant.pk)

  seen_ok :
      (m : Result Error UserTenantRole × Db) (row : UserTenantRole)
      → m.0 ≡ ok row
      → seen_assignment m ≡ (assigned_role row.role, m.1)
  seen_ok (ok row', db) row e = cc e
  seen_ok (err e', db) row e = absurd (cc e)

  seen_deleted :
      (m : Result Error Bool × Db) (b : Bool) → m.0 ≡ ok b → seen_revocation m ≡ (answered b, m.1)
  seen_deleted (ok b', db) b e = cc e
  seen_deleted (err e', db) b e = absurd (cc e)

  -- One call: the caller sees what is promised, and the table stands for the new map.
  served_step :
      (call : Call) (held : Holdings) (db : Db)
      → Represents held db
      → ((served call db).0 ≡ (promised call held).0)
        × Represents (promised call held).1 (served call db).1
  unfolding served
  served_step (assign user tenant role by) held db (unique, same) =
      elim (Bool-cases (is_in role valid_roles)) [
        | inr bad ↦ rw (bad, assign_role_invalid user tenant role by db bad) (refl, (unique, same))
        | inl good ↦
            let (row, rows, has, returned) =
              assign_role_rows user tenant role by db good (unique user.pk tenant.pk) in
            rw (good, seen_ok (assign_role user tenant role by db) row returned, has)
              (
                refl,
                (
                  assign_role-IsUnique user tenant role by db unique,
                  λ user' tenant'.
                      rw
                        (
                          get_role-assign_role user tenant role by db good unique user' tenant',
                          same user' tenant',
                        )
                        refl,
                ),
              )
      ]
  served_step (revoke user tenant) held db (unique, same) =
      let (returned, after) = get_role-revoke_role user tenant db user tenant in
      rw (seen_deleted (revoke_role user tenant db) _ returned, same user tenant)
        (
          refl,
          (
            revoke_role-IsUnique user tenant db unique,
            λ user' tenant'.
                let (r, now) = get_role-revoke_role user tenant db user' tenant' in
                rw (now, same user' tenant') refl,
          ),
        )
  served_step (ask_role user tenant) held db (unique, same) =
      rw (same user tenant) (refl, (unique, same))
  served_step (ask_any user tenant roles) held db (unique, same) =
      elim (Option-cases (held user.pk tenant.pk)) [
        | inl free ↦
            rw (has_role-eq-get_role user tenant roles db unique, same user tenant, free)
              (refl, (unique, same))
        | inr (role, holds) ↦
            rw (has_role-eq-get_role user tenant roles db unique, same user tenant, holds)
              (refl, (unique, same))
      ]

  -- The role service refines a map from users and tenants to roles: on a table in which no user
  -- has two rows in a tenant, and which stands for a map, the callers of any sequence of
  -- assignments, revocations and questions see what they would see of the map, and the table
  -- stands for the map that is left.
  pub service_refines :
      (calls : List Call) (held : Holdings) (db : Db)
      → Represents held db
      → ((replies_of served calls db).0 ≡ (replies_of promised calls held).0)
        × Represents (replies_of promised calls held).1 (replies_of served calls db).1
  service_refines [] held db r = (refl, r)
  service_refines (call ∷ calls) held db r =
      let (seen, next) = served_step call held db r in
      let (rest, last) = service_refines calls (promised call held).1 (served call db).1 next in
      (rw (seen, rest) refl, last)
