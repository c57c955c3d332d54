-- ===== src/Features/Setting.antt =====
-- What setting a flag, or all flags of a plan, does to the flags of every tenant.
use django_saas_kit.Action.{after, Error, ◌>>◌, Action}
use django_saas_kit.Text.{append}
use django_saas_kit.Http.{Request}
use django_saas_kit.Orm.Queries.{filter-save_self, filter-save_other, filter-create}
use django_saas_kit.Features.Resolution.{HasUniqueFlags}
use django_saas_kit.Features.Service.{
  plan_slug_of, sync_plan_flags, set_all, set_flag, new_flag, Waffle, override_of, upsert_flag,
  set_for_tenant, is_enabled, at_flag,
}
use django_saas_kit.Models.{Db, TenantFeatureFlag, Tenant}
use django_saas_kit.Orm.{err, Result, ok, Orm}
use django_saas_kit.Base.{
  Option-cases, if◌then◌else◌, ==_refl, ◌∙◌, Option, sym, List-cases, Bool-cases, eq_iff, ◌&&◌,
  str_eq, ◌==◌, Bool, false, true, String, ℕ, List, [], ◌∷◌, refl, ◌≡◌, none, some, inl, inr, arith,
}
use django_saas_kit.Features.Dict.{get}

-- The same flag of the same tenant.
abbrev pub same_flag : ℕ → String → ℕ → String → Bool
same_flag t n t' n' = t == t' && str_eq n n'

apart_flags :
    (t : ℕ) (n : String) (t' : ℕ) (n' : String)
    → same_flag t n t' n' ≡ false
    → (f : TenantFeatureFlag) → at_flag t' n' f ≡ true
    → at_flag t n f ≡ false
apart_flags t n t' n' h f e = elim (Bool-cases (str_eq f.flag_name n)) [
  | inr other ↦ rw other (ground arith)
  | inl same ↦
      let here : str_eq f.flag_name n' ≡ true = ground arith in
      let p : n ≡ n' = sym ((eq_iff f.flag_name n).0 same) ∙ (eq_iff f.flag_name n').0 here in
      let q : str_eq n n' ≡ true = (eq_iff n n').1 p in ground arith
]

same_flag_eq :
    (t : ℕ) (n : String) (t' : ℕ) (n' : String) → same_flag t n t' n' ≡ true → (t ≡ t') × (n ≡ n')
same_flag_eq t n t' n' h =
    let q : str_eq n n' ≡ true = ground arith in (ground arith, (eq_iff n n').0 q)

-- The keys of a Python dict.
abbrev pub HasUniqueKeys : List (String × Bool) → Type 0
HasUniqueKeys [] = Unit
HasUniqueKeys ((name, b) ∷ d) = (get name d ≡ none) × HasUniqueKeys d

module _ ⦃orm : Orm⦄ where
  module _ (tenant : Tenant) (name : String) (value : Bool) (source note : String) (db : Db) where
    set_other_rows :
        (t' : ℕ) (n' : String)
        → same_flag tenant.pk name t' n' ≡ false
        → orm.filter (at_flag t' n') (set_for_tenant tenant name value source note db).1.flags
          ≡ orm.filter (at_flag t' n') db.flags
    unfolding set_for_tenant upsert_flag
    set_other_rows t' n' h = elim (List-cases (orm.filter (at_flag tenant.pk name) db.flags)) [
      | inl new ↦ rw (new, upsert_flag, filter-create, h)
      | inr (inl (f, one)) ↦
          rw (one, upsert_flag)
            (filter-save_other (at_flag t' n') (at_flag tenant.pk name) (set_flag value source note)
              (λ f. refl) (apart_flags tenant.pk name t' n' h) db.flags)
      | inr (inr (x, y, l, many)) ↦ rw (many, upsert_flag)
    ]

    set_own_rows :
        HasUniqueFlags db
        → (row : TenantFeatureFlag) × (orm.filter
              (at_flag tenant.pk name)
              (set_for_tenant tenant name value source note db).1.flags
            ≡ row ∷ [])
          × (row.is_enabled ≡ value)
          × ((set_for_tenant tenant name value source note db).0 ≡ ok tt)
    unfolding set_for_tenant upsert_flag
    set_own_rows unique = elim (List-cases (orm.filter (at_flag tenant.pk name) db.flags)) [
      | inl new ↦
          rw (new, upsert_flag)
            (
              new_flag tenant name value source note,
              rw (filter-create, new, ==_refl tenant.pk, (eq_iff name name).1 refl) refl,
              refl,
              refl,
            )
      | inr (inl (f, one)) ↦
          rw (one, upsert_flag)
            (
              set_flag value source note f,
              rw
                  (
                    filter-save_self (at_flag tenant.pk name) (set_flag value source note)
                        (λ f. refl) db.flags,
                    one,
                  )
                  refl,
              refl,
              refl,
            )
      | inr (inr (x, y, l, many)) ↦
          absurd (let k = rw many at (unique tenant.pk name) in omega arith)
    ]

    set_for_tenant-HasUniqueFlags :
        HasUniqueFlags db → HasUniqueFlags (set_for_tenant tenant name value source note db).1
    set_for_tenant-HasUniqueFlags unique t' n' =
        elim (Bool-cases (same_flag tenant.pk name t' n')) [
          | inr apart ↦ rw (set_other_rows t' n' apart) (unique t' n')
          | inl same ↦
              let (row, rows, held, returned) = set_own_rows unique in
              let (p, q) = same_flag_eq tenant.pk name t' n' same in
              rw (← p, ← q, rows) (omega arith)
        ]

    -- Where a flag has at most one row, setting a flag returns normally, and afterwards the flag
    -- resolves to the given value for its tenant, over waffle and the settings; every other flag, and
    -- every flag of another tenant, resolves as before.
    pub is_enabled-set_for_tenant :
        HasUniqueFlags db
        → (waffle : Waffle) (defaults : List (String × Bool)) (request : Option Request)
          (tenant' : Tenant) (name' : String)
        → let (r, db') = set_for_tenant tenant name value source note db in
          (r ≡ ok tt)
          × (is_enabled waffle defaults name' request (some tenant') db' ≡ (
              if same_flag tenant.pk name tenant'.pk name'
              then value
              else is_enabled waffle defaults name' request (some tenant') db))
    unfolding is_enabled override_of
    is_enabled-set_for_tenant unique waffle defaults request tenant' name' =
        let (row, rows, held, returned) = set_own_rows unique in
        (
          returned,
          elim (Bool-cases (same_flag tenant.pk name tenant'.pk name')) [
            | inl same ↦
                let (p, q) = same_flag_eq tenant.pk name tenant'.pk name' same in
                rw (same, ← p, ← q, is_enabled, rows, override_of) held
            | inr apart ↦ rw (apart, is_enabled, set_other_rows tenant'.pk name' apart, is_enabled)
          ],
        )

  then_ok : (m k : Action Unit) (db : Db) → (m db).0 ≡ ok tt → (m >> k) db ≡ k (m db).1
  then_ok m k db h = go (m db) h
    where
      go : (p : Result Error Unit × Db) → p.0 ≡ ok tt → after p (λ _. k) ≡ k p.1
      go (ok a, s) e = refl
      go (err x, s) e = absurd (cc e)

  module _ (waffle : Waffle) (defaults : List (String × Bool)) (request : Option Request)
      (tenant : Tenant) (tenant' : Tenant) (name : String) where
    -- What the flags of a tenant resolve to after a dict of them was set.
    after_set : List (String × Bool) → Db → Bool
    after_set d db =
        if tenant.pk == tenant'.pk
        then elim (get name d) [
          | none ↦ is_enabled waffle defaults name request (some tenant') db
          | some value ↦ value
        ]
        else is_enabled waffle defaults name request (some tenant') db

    after_set_step :
        (k : String) (value : Bool) (d : List (String × Bool)) (db db' : Db)
        → get k d ≡ none
        → is_enabled waffle defaults name request (some tenant') db' ≡ (
            if same_flag tenant.pk k tenant'.pk name
            then value
            else is_enabled waffle defaults name request (some tenant') db)
        → after_set d db' ≡ after_set ((k, value) ∷ d) db
    unfolding after_set get
    after_set_step k value d db db' new sets = elim (Bool-cases (tenant.pk == tenant'.pk)) [
      | inr apart ↦ rw (apart, sets, apart) refl
      | inl same ↦ elim (Bool-cases (str_eq k name)) [
        | inl here ↦
            let p : k ≡ name = (eq_iff k name).0 here in
            let absent : get name d ≡ none = rw (← p) new in
            rw (same, here, absent, sets, same, here) refl
        | inr other ↦ elim (Option-cases (get name d)) [
          | inl absent ↦ rw (same, other, absent, sets, same, other) refl
          | inr (b, listed) ↦ rw (same, other, listed) refl
        ]
      ]
    ]

    set_all_lem :
        (slug : String) (d : List (String × Bool)) (db : Db)
        → HasUniqueKeys d
        → HasUniqueFlags db
        → ((set_all tenant slug d db).0 ≡ ok tt)
          × (is_enabled waffle defaults name request (some tenant') (set_all tenant slug d db).1
              ≡ after_set d db)
    unfolding set_all after_set get
    set_all_lem slug [] db keys unique = (refl, ground arith)
    set_all_lem slug ((k, value) ∷ d) db (new, keys) unique =
        let note = append "Auto-set by plan: " slug in
        let (returned, sets) =
          is_enabled-set_for_tenant tenant k value "plan" note db unique waffle defaults request
            tenant' name in
        let (rest_ok, rest) =
          set_all_lem slug d (set_for_tenant tenant k value "plan" note db).1 keys
            (set_for_tenant-HasUniqueFlags tenant k value "plan" note db unique) in
        rw (then_ok (set_for_tenant tenant k value "plan" note) (set_all tenant slug d) db returned)
          (rest_ok, rest ∙ after_set_step k value d db _ new sets)

  -- After a synchronisation with a tenant's plan, where the setting has flags for the plan: it
  -- returned normally, each of these flags resolves for the tenant as the plan says, over waffle, the
  -- settings and what was set by hand; other flags, and other tenants' flags, resolve as before.
  pub is_enabled-sync_plan_flags :
      (plan_flags : List (String × List (String × Bool))) (slug : String) (d : List (String × Bool))
      (waffle : Waffle) (defaults : List (String × Bool)) (request : Option Request)
      (tenant tenant' : Tenant) (name : String) (db : Db)
      → HasUniqueFlags db
      → HasUniqueKeys d
      → plan_slug_of tenant db ≡ some slug
      → get slug plan_flags ≡ some d
      → let (r, db') = sync_plan_flags plan_flags tenant db in
        (r ≡ ok tt)
        × (is_enabled waffle defaults name request (some tenant') db' ≡ (
            if tenant.pk == tenant'.pk
            then elim (get name d) [
              | none ↦ is_enabled waffle defaults name request (some tenant') db
              | some value ↦ value
            ]
            else is_enabled waffle defaults name request (some tenant') db))
  unfolding sync_plan_flags after_set get
  is_enabled-sync_plan_flags [] slug d waffle defaults request tenant tenant' name db unique keys
        on_plan listed =
      absurd (cc listed)
  is_enabled-sync_plan_flags (p ∷ l) slug d waffle defaults request tenant tenant' name db unique
        keys on_plan listed =
      rw (on_plan, listed)
        (set_all_lem waffle defaults request tenant tenant' name slug d db keys unique)
