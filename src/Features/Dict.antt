-- ===== src/Features/Dict.antt =====
-- Python's `dict` with texts as keys: an association list, the first pair of a key counting.
use django_saas_kit.Base.{
  sym, ◌∙◌, true, false, inr, arith, eq_iff, inl, Bool-cases, str_eq, if◌then◌else◌, Option, List,
  String, [], ◌∷◌, refl, ◌≡◌, none, some,
}

module _ {A : Type 0} where
  -- `d.get(key)`
  unfoldable pub get : String → List (String × A) → Option A
  get key [] = none
  get key ((k, a) ∷ d) = let rest = get key d in if str_eq k key then some a else rest

  -- `d[key] = value`
  unfoldable pub put : String → A → List (String × A) → List (String × A)
  put key value [] = (key, value) ∷ []
  put key value ((k, a) ∷ d) =
      let rest = put key value d in if str_eq k key then (k, value) ∷ d else (k, a) ∷ rest

  pub get-put :
      (key : String) (value : A) (key' : String) (d : List (String × A))
      → get key' (put key value d) ≡ (if str_eq key key' then some value else get key' d)
  unfolding get put
  get-put key value key' [] = refl
  get-put key value key' ((k, a) ∷ d) = elim (Bool-cases (str_eq k key)) [
    | inl same ↦ let p : k ≡ key = (eq_iff k key).0 same in rw (same, p) (ground arith)
    | inr other ↦ elim (Bool-cases (str_eq k key')) [
      | inr apart ↦ rw (other, apart) (get-put key value key' d)
      | inl here ↦
          let p : k ≡ key' = (eq_iff k key').0 here in
          let not_same : str_eq key key' ≡ false = elim (Bool-cases (str_eq key key')) [
            | inr differ ↦ differ
            | inl alike ↦
                let q : key ≡ key' = (eq_iff key key').0 alike in
                let e : str_eq k key ≡ true = (eq_iff k key).1 (p ∙ sym q) in absurd (cc (e, other))
          ] in
          rw (other, here, not_same)
    ]
  ]
