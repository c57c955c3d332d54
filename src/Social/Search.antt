-- ===== src/Social/Search.antt =====
-- That the search for a free username ends.
use django_saas_kit.Text.{append}
use django_saas_kit.Users.Service.{with_username}
use django_saas_kit.Text.Laws.{append_cancel, append-own}
use django_saas_kit.Models.{User, Db}
use text.Mathlib.TextLemmas.{tail-eq_of_cons-eq}
use django_saas_kit.Base.{
  refl, List, Bool, String, ℕ, some, ◌≡◌, ◌≢◌, true, false, not, arith, inl, inr, ◌<◌, ◌≤◌, zero,
  suc, str_eq, select, [], ◌∷◌, is_empty, length, sym, ◌∙◌, Bool-cases, eq_iff,
}
use django_saas_kit.Orm.{Orm}
use django_saas_kit.Social.Usernames.{unique_username, search_username, candidate, is_taken}

-- Whether a list of users has the name.
abbrev has_name : List User → String → Bool
has_name l name = not (is_empty (select (with_username name) l))

same_name : (x c d : String) → c ≢ d → str_eq x c ≡ true → str_eq x d ≡ false
same_name x c d apart is_c = elim (Bool-cases (str_eq x d)) [
  | inr other ↦ other
  | inl is_d ↦
      let at_c = (eq_iff x c).0 is_c in
      let at_d = (eq_iff x d).0 is_d in absurd (apart (sym at_c ∙ at_d))
]

-- Without the users of one name, every other name is taken as before,
has_name-others :
    (l : List User) (name other : String)
    → name ≢ other
    → has_name (select (λ u. not (with_username name u)) l) other ≡ has_name l other
unfolding select
has_name-others [] name other apart = refl
has_name-others (u ∷ l) name other apart =
    ground (arith, has_name-others l name other apart, same_name u.username name other apart)

-- ... and there are fewer users, where the name was taken.
length-others_le :
    (l : List User) (name : String) → length (select (λ u. not (with_username name u)) l) ≤ length l
unfolding select
length-others_le [] name = ground arith
length-others_le (u ∷ l) name = ground (arith, length-others_le l name)

length-others :
    (l : List User) (name : String)
    → has_name l name ≡ true
    → length (select (λ u. not (with_username name u)) l) < length l
unfolding select
length-others [] name h = ground arith
length-others (u ∷ l) name h = ground (arith, length-others l name, length-others_le l name)

module _ (str : ℕ → String) (str_inj : (m n : ℕ) → str m ≡ str n → m ≡ n) (base : String) where
  -- No name is tried twice.
  candidates_apart : (n m : ℕ) → n < m → candidate str base n ≢ candidate str base m
  unfolding append
  candidates_apart n zero h = ground arith
  candidates_apart zero (suc m) h = λ e. append-own _ base _ e
  candidates_apart (suc n) (suc m) h = λ e.
      let same = str_inj (suc n) (suc m) (tail-eq_of_cons-eq (append_cancel base _ _ e)) in
      ground arith

  -- The search reads no name that it has tried before.
  search_congr :
      (t t' : String → Bool) (fuel n : ℕ)
      → ((m : ℕ) → n ≤ m → t (candidate str base m) ≡ t' (candidate str base m))
      → search_username str t base fuel (candidate str base n) (suc n)
        ≡ search_username str t' base fuel (candidate str base n) (suc n)
  unfolding search_username
  search_congr t t' zero n agree = refl
  search_congr t t' (suc fuel) n agree =
      let here : t (candidate str base n) ≡ t' (candidate str base n) = agree n (ground arith) in
      let rest = search_congr t t' fuel (suc n) (λ m h. agree m (ground arith)) in
      rw (here, rest) refl

  -- With more turns than users, the search finds a name that none has.
  search_ends :
      (fuel n : ℕ) (l : List User)
      → length l < fuel
      → (k : ℕ) × (n ≤ k)
        × (search_username str (has_name l) base fuel (candidate str base n) (suc n)
            ≡ some (candidate str base k))
        × (has_name l (candidate str base k) ≡ false)
  unfolding search_username
  search_ends zero n l h = ground arith
  search_ends (suc fuel) n l h = elim (Bool-cases (has_name l (candidate str base n))) [
    | inr free ↦ (n, ground arith, rw free refl, free)
    | inl used ↦
        let others = select (λ u. not (with_username (candidate str base n) u)) l in
        let fewer : length others < fuel =
          let less = length-others l (candidate str base n) used in ground arith in
        let (k, later, found, free) = search_ends fuel (suc n) others fewer in
        let reads : (m : ℕ)
            → suc n ≤ m
            → has_name l (candidate str base m) ≡ has_name others (candidate str base m) =
          λ m less. sym (
            has_name-others l (candidate str base n) (candidate str base m)
              (candidates_apart n m (ground arith))) in
        (
          k,
          ground arith,
          rw used (search_congr (has_name l) (has_name others) fuel (suc n) reads ∙ found),
          reads k later ∙ free,
        )
  ]

  -- Where no two numbers have the same text, the search for a username ends: it has a result, which
  -- is the base or the base with a number, and no user has it.
  pub unique_username_ends :
      ⦃orm : Orm⦄ (db : Db)
      → (k : ℕ) × (unique_username str base db ≡ some (candidate str base k))
        × (is_taken str db (candidate str base k) ≡ false)
  unfolding unique_username
  unique_username_ends ⦃orm⦄ db =
      let (k, later, found, free) =
        search_ends (suc (length (orm.all db.users))) 0 (orm.all db.users) (ground arith) in
      let reads : (name : String) → is_taken str db name ≡ has_name (orm.all db.users) name =
        λ name. rw orm.filter_lem refl in
      (
        k,
        search_congr (is_taken str db) (has_name (orm.all db.users))
              (suc (length (orm.all db.users))) 0 (λ m h. reads (candidate str base m))
            ∙ found,
        reads (candidate str base k) ∙ free,
      )
