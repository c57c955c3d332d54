-- ===== src/Billing/Plans.antt =====
-- `Plan`, and services/billing/plan_limit_service.py.
use django_saas_kit.Rbac.Service.{at_tenant}
use django_saas_kit.Orm.Queries.{first, count}
use django_saas_kit.Base.{
  arith, none, Bool-cases, inr, inl, Option-cases, ◌<◌, if◌then◌else◌, ◌⊎◌, some, Bool, ◌≡◌, Option,
  ℕ, ◌==◌, leb,
}
use django_saas_kit.Orm.{err, ok, Orm}
use django_saas_kit.Models.{Db, Plan, Subscription, Tenant}
use django_saas_kit.Action.{raise_if, gets, ◌>>=◌, plan_limit_exceeded, Action, pure}

unfoldable pub is_unlimited_members : Plan → Bool
is_unlimited_members plan = plan.max_members == 0

unfoldable pub is_unlimited_storage : Plan → Bool
is_unlimited_storage plan = plan.max_storage_mb == 0

abbrev pub of_tenant : ℕ → Subscription → Bool
of_tenant tenant sub = sub.tenant == tenant

abbrev pub with_plan_pk : ℕ → Plan → Bool
with_plan_pk id plan = plan.pk == id

-- A plan, or no plan, that has room for one member more than `current`.
abbrev pub HasRoom : Option Plan → ℕ → Type 0
HasRoom none current = Unit
HasRoom (some plan) current = (plan.max_members ≡ 0) ⊎ (current < plan.max_members)

module _ ⦃orm : Orm⦄ where
  -- `subscription.plan`: the row that the foreign key names
  unfoldable pub plan_of : Subscription → Db → Option Plan
  plan_of sub db = elim sub.plan [ none ↦ none | some id ↦ first (with_plan_pk id) db.plans ]

  -- `tenant.subscription`; `none` where the attribute raises
  unfoldable pub subscription_of : Tenant → Db → Option Subscription
  subscription_of tenant db = first (of_tenant tenant.pk) db.subscriptions

  -- `PlanLimitService.get_plan`
  unfoldable pub get_plan : Tenant → Db → Option Plan
  unfolding subscription_of plan_of
  get_plan tenant db = elim (subscription_of tenant db) [ none ↦ none | some sub ↦ plan_of sub db ]

  -- `PlanLimitService.get_member_count`
  unfoldable pub get_member_count : Tenant → Db → ℕ
  get_member_count tenant db = count (at_tenant tenant.pk) db.roles

  within_plan : Tenant → Option Plan → Action Unit
  unfolding is_unlimited_members
  within_plan tenant none = pure tt
  within_plan tenant (some plan) = if is_unlimited_members plan then pure tt else (do
    current ← gets (get_member_count tenant)
    raise_if (leb plan.max_members current) plan_limit_exceeded)

  -- `PlanLimitService.check_member_limit`
  unfoldable pub check_member_limit : Tenant → Action Unit
  unfolding within_plan
  check_member_limit tenant = do plan ← gets (get_plan tenant); within_plan tenant plan

  -- The check writes nothing; it passes exactly when the plan, if any, is unlimited or has room for
  -- one more member, and raises `PlanLimitExceededError` otherwise.
  pub check_member_limit_exact :
      (tenant : Tenant) (db : Db)
      → ((check_member_limit tenant db ≡ (ok tt, db))
          × HasRoom (get_plan tenant db) (get_member_count tenant db))
        ⊎ ((check_member_limit tenant db ≡ (err plan_limit_exceeded, db))
            × ¬ HasRoom (get_plan tenant db) (get_member_count tenant db))
  unfolding check_member_limit
  check_member_limit_exact tenant db = elim (Option-cases (get_plan tenant db)) [
    | inl free ↦ inl (rw (free, within_plan), rw free tt)
    | inr (plan, e) ↦ elim (Bool-cases (plan.max_members == 0)) [
      | inl unlimited ↦ inl (rw (e, within_plan, unlimited), rw e (inl (ground arith)))
      | inr limited ↦ elim (Bool-cases (leb plan.max_members (get_member_count tenant db))) [
        | inl full ↦ inr (rw (e, within_plan, limited, full), rw e (λ h. ground arith))
        | inr room ↦ inl (rw (e, within_plan, limited, room), rw e (inr (ground arith)))
      ]
    ]
  ]
