-- ===== src/Demo/Upserts.antt =====
-- `update_or_create` on a table: the row that it leaves, and what other lookups find.
use django_saas_kit.Base.{
  Bool, true, false, [], ◌∷◌, ◌≡◌, refl, ◌≤◌, ◌⊎◌, inl, inr, length, List-cases, arith,
}
use django_saas_kit.Orm.{Orm, ok}
use django_saas_kit.Orm.Queries.{saved, filter-create, filter-save_self, filter-save_other}
use django_saas_kit.Orm.Clearing.{filter-create_none, filter-save_within}
use django_saas_kit.Demo.{update_or_create}

module _ ⦃orm : Orm⦄ {R : Type 0} (p : R → Bool) (row : R) (defaults : R → R) where
  -- What the call returns and the table after it: a new row, or the one row with the defaults.
  abbrev pub Upserted : orm.Table R → R → orm.Table R → Type 0
  Upserted t r t' =
      ((orm.filter p t ≡ []) × (r ≡ row) × (t' ≡ orm.create row t))
      ⊎ ((found : R) × (orm.filter p t ≡ found ∷ [])
          × (r ≡ defaults found)
          × (t' ≡ orm.save p defaults t))

  pub upsert_cases :
      (t : orm.Table R)
      → length (orm.filter p t) ≤ 1
      → (r : R) × (t' : orm.Table R) × (update_or_create p row defaults (orm.filter p t) t
          ≡ (ok r, t'))
        × Upserted t r t'
  unfolding update_or_create
  upsert_cases t few = elim (List-cases (orm.filter p t)) [
    | inl new ↦ (row, orm.create row t, rw new refl, inl (new, refl, refl))
    | inr (inl (found, one)) ↦
        (defaults found, orm.save p defaults t, rw one refl, inr (found, one, refl, refl))
    | inr (inr (r, r', l, many)) ↦ absurd (let k = rw many at few in omega arith)
  ]

  pub Upserted-found :
      (t t' : orm.Table R) (r : R)
      → p row ≡ true
      → ((r : R) → p (defaults r) ≡ p r)
      → Upserted t r t'
      → orm.filter p t' ≡ r ∷ []
  Upserted-found t t' r named stable (inl (new, same, after)) =
      rw (after, same, filter-create, named, new) refl
  Upserted-found t t' r named stable (inr (found, one, same, after)) =
      rw (after, same, filter-save_self p defaults stable t, one) refl

  -- A lookup that finds nothing, and that the call does not feed, finds nothing.
  pub Upserted-none :
      (q : R → Bool) (t t' : orm.Table R) (r : R)
      → q row ≡ false
      → ((r : R) → q (saved p defaults r) ≡ true → q r ≡ true)
      → orm.filter q t ≡ []
      → Upserted t r t'
      → orm.filter q t' ≡ []
  Upserted-none q t t' r apart feeds empty (inl (new, same, after)) =
      rw after (filter-create_none q row t apart empty)
  Upserted-none q t t' r apart feeds empty (inr (found, one, same, after)) =
      rw after (filter-save_within q q p defaults t feeds empty)

  -- A lookup of other rows finds the same ones.
  pub Upserted-other :
      (q : R → Bool) (t t' : orm.Table R) (r : R)
      → q row ≡ false
      → ((r : R) → q (defaults r) ≡ q r)
      → ((r : R) → q r ≡ true → p r ≡ false)
      → Upserted t r t'
      → orm.filter q t' ≡ orm.filter q t
  Upserted-other q t t' r apart stable others (inl (new, same, after)) =
      rw (after, filter-create, apart) refl
  Upserted-other q t t' r apart stable others (inr (found, one, same, after)) =
      rw after (filter-save_other q p defaults stable others t)
