-- ===== src/Orm.antt =====
-- What the program uses of Django's ORM: tables of rows, and the calls that read and write them. A
-- new row stands first in its table, for every model: that order is the one of `-created_at`, and it
-- is not the order of the models that sort by a name or by the key.
pub mod Queries
pub mod Clearing
use django_saas_kit.Base.{◌≡◌, refl, Bool, not, List, ◌∷◌, map, select, if◌then◌else◌}

-- A raised exception, or a returned value.
pub data Result {ℓ} (E A : Type ℓ) : Type ℓ where
  ok : A → Result E A
  err : E → Result E A

-- The state when a block of `transaction.atomic()` is left: a raise undoes its writes.
abbrev pub rollback : {E A S : Type 0} → S → Result E A × S → Result E A × S
rollback s (ok a, s') = (ok a, s')
rollback s (err e, s') = (err e, s)

pub record Orm : Type 1 where
  pub Table : Type 0 → Type 0
  -- `objects.all()`, `objects.filter(...)`: a queryset is the list of its rows, in the model's order.
  pub all : {R : Type 0} → Table R → List R
  pub filter : {R : Type 0} → (R → Bool) → Table R → List R
  -- `objects.create(...)`
  pub create : {R : Type 0} → R → Table R → Table R
  -- `save()` of the rows that a lookup names, after an assignment to fields
  pub save : {R : Type 0} → (R → Bool) → (R → R) → Table R → Table R
  -- `filter(...).delete()`
  pub delete : {R : Type 0} → (R → Bool) → Table R → Table R
  pub atomic : {E A S : Type 0} → (S → Result E A × S) → S → Result E A × S
  pub filter_lem : {R : Type 0} (p : R → Bool) (t : Table R) → filter p t ≡ select p (all t)
  pub all-create : {R : Type 0} (r : R) (t : Table R) → all (create r t) ≡ r ∷ all t
  pub all-save :
      {R : Type 0} (p : R → Bool) (f : R → R) (t : Table R)
      → all (save p f t) ≡ map (λ r. if p r then f r else r) (all t)
  pub all-delete :
      {R : Type 0} (p : R → Bool) (t : Table R) → all (delete p t) ≡ select (λ r. not (p r)) (all t)
  pub atomic_lem : {E A S : Type 0} (m : S → Result E A × S) (s : S) → atomic m s ≡ rollback s (m s)

-- A database in memory, which shows that the laws can hold.
instance abbrev pub memory : Orm
memory = record {
  Table = λ R. List R;
  all = λ t. t;
  filter = λ p t. select p t;
  create = λ r t. r ∷ t;
  save = λ p f t. map (λ r. if p r then f r else r) t;
  delete = λ p t. select (λ r. not (p r)) t;
  atomic = λ m s. rollback s (m s);
  filter_lem = λ p t. refl;
  all-create = λ r t. refl;
  all-save = λ p f t. refl;
  all-delete = λ p t. refl;
  atomic_lem = λ m s. refl;
}
