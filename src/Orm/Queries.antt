-- ===== src/Orm/Queries.antt =====
-- Queries evaluated, and the calls that Django documents as a query and a write.
use django_saas_kit.Base.{
  inr, inl, List-cases, some, ◌⊎◌, none, ◌∙◌, sym, true, ℕ, ◌≡◌, refl, Bool, false, not, ◌&&◌,
  Option, List, [], ◌∷◌, map, arith, select, length, head?, is_empty, if◌then◌else◌,
}
use mathlib.Core.Path.{fun_ext}
use django_saas_kit.Orm.{Orm}

-- What a row becomes when `f` is saved on the rows that pass `q`.
abbrev pub saved : {R : Type 0} → (R → Bool) → (R → R) → R → R
saved q f r = if q r then f r else r

and_comm : (a b : Bool) → (a && b) ≡ (b && a)
and_comm a b = ground arith

module _ {R : Type 0} where
  pub select-select :
      (p q : R → Bool) (l : List R) → select p (select q l) ≡ select (λ r. p r && q r) l
  unfolding select
  select-select p q [] = refl
  select-select p q (r ∷ l) = ground (arith, select-select p q l)

  pub select-map :
      (p : R → Bool) (g : R → R) (l : List R) → select p (map g l) ≡ map g (select (λ r. p (g r)) l)
  unfolding select
  select-map p g [] = refl
  select-map p g (r ∷ l) = ground (arith, select-map p g l)

  -- Two tests that agree select the same rows.
  pub select_congr :
      (p q : R → Bool) → ((r : R) → p r ≡ q r) → (l : List R) → select p l ≡ select q l
  unfolding select
  select_congr p q h [] = refl
  select_congr p q h (r ∷ l) = ground (arith, h r, select_congr p q h l)

  -- A test that no row passes selects none.
  pub select_none : (p : R → Bool) → ((r : R) → p r ≡ false) → (l : List R) → select p l ≡ []
  unfolding select
  select_none p h [] = refl
  select_none p h (r ∷ l) = ground (arith, h r, select_none p h l)

  -- Of the rows that pass `q`, one that passes `p` is among the rows that pass `p`.
  pub select_apart :
      (p q : R → Bool) (l l' : List R) (s : R)
      → select p l ≡ []
      → select q l ≡ s ∷ l'
      → (q s ≡ true) × (p s ≡ false)
  unfolding select
  select_apart p q [] l' s e f = ground arith
  select_apart p q (r ∷ l) l' s e f = ground (arith, select_apart p q l l' s)

  pub select_only :
      (p q : R → Bool) (l l' : List R) (row s : R)
      → select p l ≡ row ∷ []
      → select q l ≡ s ∷ l'
      → p s ≡ true
      → q row ≡ true
  unfolding select
  select_only p q [] l' row s e f h = ground arith
  select_only p q (r ∷ l) l' row s e f h =
      ground (arith, select_only p q l l' row s, select_apart p q l l' s)

  pub select_same :
      (p q : R → Bool) (l l' : List R) (row s : R)
      → select p l ≡ row ∷ []
      → select q l ≡ s ∷ l'
      → p s ≡ true
      → s ≡ row
  unfolding select
  select_same p q [] l' row s e f h = ground arith
  select_same p q (r ∷ l) l' row s e f h =
      ground (arith, select_same p q l l' row s, select_apart p q l l' s)

  pub select_pass : (p : R → Bool) (l l' : List R) (s : R) → select p l ≡ s ∷ l' → p s ≡ true
  unfolding select
  select_pass p [] l' s e = ground arith
  select_pass p (r ∷ l) l' s e = ground (arith, select_pass p l l' s)

  pub map-select_id :
      (p : R → Bool) (g : R → R)
      → ((r : R) → p r ≡ true → g r ≡ r)
      → (l : List R) → map g (select p l) ≡ select p l
  unfolding select
  map-select_id p g h [] = refl
  map-select_id p g h (r ∷ l) = ground (arith, h r, map-select_id p g h l)

  pub map-saved-select :
      (p : R → Bool) (f : R → R) (l : List R) → map (saved p f) (select p l) ≡ map f (select p l)
  unfolding select
  map-saved-select p f [] = refl
  map-saved-select p f (r ∷ l) = ground (arith, map-saved-select p f l)

  pub saved_stable :
      (p q : R → Bool) (f : R → R) → ((r : R) → p (f r) ≡ p r) → (r : R) → p (saved q f r) ≡ p r
  saved_stable p q f h r = ground (arith, h r)

module _ ⦃orm : Orm⦄ {R : Type 0} where
  open orm use {Table, filter, create, save, delete, all}

  -- `.exists()`
  abbrev pub exists : (R → Bool) → Table R → Bool
  exists p t = not (is_empty (filter p t))

  -- `.first()`
  abbrev pub first : (R → Bool) → Table R → Option R
  first p t = head? (filter p t)

  -- `.count()`
  abbrev pub count : (R → Bool) → Table R → ℕ
  count p t = length (filter p t)

  pub filter-create :
      (p : R → Bool) (r : R) (t : Table R)
      → filter p (create r t) ≡ (if p r then r ∷ filter p t else filter p t)
  unfolding select
  filter-create p r t = rw (orm.filter_lem, orm.all-create, orm.filter_lem) refl

  pub filter-delete :
      (p q : R → Bool) (t : Table R) → filter p (delete q t) ≡ filter (λ r. p r && not (q r)) t
  filter-delete p q t =
      rw (orm.filter_lem, orm.all-delete, orm.filter_lem) (select-select p (λ r. not (q r)) (all t))

  pub filter-save :
      (p q : R → Bool) (f : R → R) (t : Table R)
      → filter p (save q f t) ≡ map (saved q f) (filter (λ r. p (saved q f r)) t)
  filter-save p q f t =
      rw (orm.filter_lem, orm.all-save, orm.filter_lem) (select-map p (saved q f) (all t))

  -- A save that does not change what `p` reads.
  pub filter-save_stable :
      (p q : R → Bool) (f : R → R)
      → ((r : R) → p (f r) ≡ p r)
      → (t : Table R) → filter p (save q f t) ≡ map (saved q f) (filter p t)
  filter-save_stable p q f h t = rw (filter-save, fun_ext (saved_stable p q f h)) refl

  -- ... on the rows that `p` selects
  pub filter-save_self :
      (p : R → Bool) (f : R → R)
      → ((r : R) → p (f r) ≡ p r)
      → (t : Table R) → filter p (save p f t) ≡ map f (filter p t)
  filter-save_self p f h t =
      rw (filter-save_stable p p f h t, orm.filter_lem) (map-saved-select p f (all t))

  -- ... on rows that `p` does not select
  pub filter-save_other :
      (p q : R → Bool) (f : R → R)
      → ((r : R) → p (f r) ≡ p r)
      → ((r : R) → p r ≡ true → q r ≡ false)
      → (t : Table R) → filter p (save q f t) ≡ filter p t
  filter-save_other p q f h apart t =
      rw (filter-save_stable p q f h t, orm.filter_lem)
        (map-select_id p (saved q f) (λ r e. ground (arith, apart r e)) (all t))

  pub filter-delete_self : (p : R → Bool) (t : Table R) → filter p (delete p t) ≡ []
  filter-delete_self p t =
      rw (filter-delete, orm.filter_lem) (select_none _ (λ r. ground arith) (all t))

  pub filter-delete_other :
      (p q : R → Bool)
      → ((r : R) → p r ≡ true → q r ≡ false)
      → (t : Table R) → filter p (delete q t) ≡ filter p t
  filter-delete_other p q apart t =
      rw (filter-delete, orm.filter_lem, orm.filter_lem)
        (select_congr _ p (λ r. ground (arith, apart r)) (all t))

  pub filter-and :
      (p q : R → Bool) (t : Table R) → filter (λ r. p r && q r) t ≡ select q (filter p t)
  filter-and p q t =
      rw (orm.filter_lem, orm.filter_lem)
        (select_congr _ _ (λ r. and_comm (p r) (q r)) (all t) ∙ sym (select-select q p (all t)))

  -- A row that one lookup finds, and that passes a lookup with one row, is that row.
  pub filter_only :
      (p q : R → Bool) (t : Table R) (l' : List R) (row s : R)
      → filter p t ≡ row ∷ []
      → filter q t ≡ s ∷ l'
      → p s ≡ true
      → q row ≡ true
  filter_only p q t l' row s e f =
      select_only p q (all t) l' row s (sym (orm.filter_lem p t) ∙ e) (sym (orm.filter_lem q t) ∙ f)

  pub filter_same :
      (p q : R → Bool) (t : Table R) (l' : List R) (row s : R)
      → filter p t ≡ row ∷ []
      → filter q t ≡ s ∷ l'
      → p s ≡ true
      → s ≡ row
  filter_same p q t l' row s e f =
      select_same p q (all t) l' row s (sym (orm.filter_lem p t) ∙ e) (sym (orm.filter_lem q t) ∙ f)

  -- Where `p` selects nothing, a row that another lookup finds does not pass it.
  pub filter_apart :
      (p q : R → Bool) (t : Table R) (l' : List R) (s : R)
      → filter p t ≡ []
      → filter q t ≡ s ∷ l'
      → p s ≡ false
  filter_apart p q t l' s e f =
      (select_apart p q (all t) l' s (sym (orm.filter_lem p t) ∙ e)
        (sym (orm.filter_lem q t) ∙ f)).1

  pub filter_pass :
      (p : R → Bool) (t : Table R) (l' : List R) (s : R) → filter p t ≡ s ∷ l' → p s ≡ true
  filter_pass p t l' s e = select_pass p (all t) l' s (sym (orm.filter_lem p t) ∙ e)

  pub exists_none : (p : R → Bool) (t : Table R) → exists p t ≡ false → filter p t ≡ []
  exists_none p t h = elim (List-cases (filter p t)) [
    | inl e ↦ e
    | inr (inl (r, e)) ↦ absurd (let k = rw e at h in cc k)
    | inr (inr (r, r', l, e)) ↦ absurd (let k = rw e at h in cc k)
  ]

  -- The row that `.first()` takes heads the rows of its lookup.
  pub first_cases :
      (p : R → Bool) (t : Table R)
      → (first p t ≡ none) ⊎ ((r : R) × (l : List R) × (first p t ≡ some r) × (filter p t ≡ r ∷ l))
  first_cases p t = elim (List-cases (filter p t)) [
    | inl e ↦ inl (rw e)
    | inr (inl (r, e)) ↦ inr (r, [], rw e, e)
    | inr (inr (r, s, l, e)) ↦ inr (r, s ∷ l, rw e, e)
  ]
