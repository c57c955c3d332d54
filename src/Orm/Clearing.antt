-- ===== src/Orm/Clearing.antt =====
-- Lookups that find nothing, and the writes after which they find nothing.
use django_saas_kit.Base.{
  not, ◌&&◌, List, Bool, select, refl, ◌≡◌, [], ◌∷◌, arith, ◌∙◌, sym, false, true,
}
use mathlib.Core.Path.{fun_ext}
use django_saas_kit.Orm.{Orm}
use django_saas_kit.Orm.Queries.{
  map-select_id, select_none, saved, filter-save, filter-create, filter-delete,
}

-- Where every row that passes `p` passes `q`, and none passes `q`, none passes `p`.
select_within :
    {R : Type 0} (p q : R → Bool)
    → ((r : R) → p r ≡ true → q r ≡ true)
    → (l : List R) → select q l ≡ []
    → select p l ≡ []
unfolding select
select_within p q h [] e = refl
select_within p q h (r ∷ l) e = ground (arith, h r, select_within p q h l)

module _ ⦃orm : Orm⦄ {R : Type 0} where
  pub filter_within :
      (p q : R → Bool) (t : orm.Table R)
      → ((r : R) → p r ≡ true → q r ≡ true)
      → orm.filter q t ≡ []
      → orm.filter p t ≡ []
  filter_within p q t h e =
      orm.filter_lem p t ∙ select_within p q h (orm.all t) (sym (orm.filter_lem q t) ∙ e)

  -- A save after which a row passes `p` only where it passed `p'` before, on no row of `p'`.
  pub filter-save_within :
      (p p' q : R → Bool) (f : R → R) (t : orm.Table R)
      → ((r : R) → p (saved q f r) ≡ true → p' r ≡ true)
      → orm.filter p' t ≡ []
      → orm.filter p (orm.save q f t) ≡ []
  filter-save_within p p' q f t reads e =
      rw (filter-save, filter_within (λ r. p (saved q f r)) p' t reads e) refl

  -- ... exactly where it passed `p'`
  pub filter-save_as :
      (p p' q : R → Bool) (f : R → R) (t : orm.Table R)
      → ((r : R) → p (saved q f r) ≡ p' r)
      → orm.filter p' t ≡ []
      → orm.filter p (orm.save q f t) ≡ []
  filter-save_as p p' q f t reads none_left = rw (filter-save, fun_ext reads, none_left) refl

  -- A save that leaves no row that passes `p`.
  pub filter-save_none :
      (p q : R → Bool) (f : R → R) (t : orm.Table R)
      → ((r : R) → p (saved q f r) ≡ false)
      → orm.filter p (orm.save q f t) ≡ []
  filter-save_none p q f t clears =
      filter-save_as p (λ r. false) q f t clears
        (orm.filter_lem (λ r. false) t ∙ select_none (λ r. false) (λ r. refl) (orm.all t))

  pub filter-create_none :
      (p : R → Bool) (r : R) (t : orm.Table R)
      → p r ≡ false
      → orm.filter p t ≡ []
      → orm.filter p (orm.create r t) ≡ []
  filter-create_none p r t apart e = rw (filter-create, apart) e

  pub filter-delete_none :
      (p q : R → Bool) (t : orm.Table R) → orm.filter p t ≡ [] → orm.filter p (orm.delete q t) ≡ []
  filter-delete_none p q t e =
      rw filter-delete (filter_within (λ r. p r && not (q r)) p t (λ r h. ground arith) e)

  -- Rows that a save does not name are found as before, where its rows stay named.
  pub filter-save_outside :
      (g q : R → Bool) (f : R → R) (t : orm.Table R)
      → ((r : R) → q r ≡ true → q (f r) ≡ true)
      → orm.filter (λ r. g r && not (q r)) (orm.save q f t) ≡ orm.filter (λ r. g r && not (q r)) t
  filter-save_outside g q f t named =
      let reads : (r : R) → (g (saved q f r) && not (q (saved q f r))) ≡ (g r && not (q r)) =
        λ r. ground (arith, named r) in
      let same : (r : R) → (g r && not (q r)) ≡ true → saved q f r ≡ r = λ r h. ground arith in
      rw (filter-save, fun_ext reads, orm.filter_lem)
        (map-select_id (λ r. g r && not (q r)) (saved q f) same (orm.all t))
