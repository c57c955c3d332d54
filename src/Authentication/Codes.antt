-- ===== src/Authentication/Codes.antt =====
-- Backup codes over the calls of the views: which calls can bring a used code back.
use django_saas_kit.Rbac.Service.{is_in}
use django_saas_kit.Models.{UserTotp, User}
use django_saas_kit.Base.{
  eq_iff, Bool-cases, inr, inl, none, some, Option, str_eq_sym, ◌∙◌, sym, select, ◌&&◌, not, str_eq,
  Bool, List, String, ℕ, refl, ◌≡◌, [], ◌∷◌, arith, true, false,
}
use django_saas_kit.Orm.{Orm}
use django_saas_kit.Orm.Clearing.{
  filter-save_within, filter-save_none, filter-create_none, filter-delete_none,
}
use django_saas_kit.Orm.Queries.{first_cases, first, select_apart}
use django_saas_kit.Authentication.TwoFactor.{set_codes, without_code, new_totp}
use django_saas_kit.Users.Gdpr.{totp_of}

is_in-without :
    (code used : String) (codes : List String)
    → is_in code (select (λ c. not (str_eq c used)) codes) ≡ true
    → is_in code codes ≡ true
unfolding select
is_in-without code used [] h = h
is_in-without code used (c ∷ l) h = ground (arith, is_in-without code used l)

pub not_in-without :
    (code : String) (codes : List String)
    → is_in code (select (λ c. not (str_eq c code)) codes) ≡ false
unfolding select
not_in-without code [] = refl
not_in-without code (c ∷ l) = ground (arith, not_in-without code l, str_eq_sym c code)

-- Using one code leaves another one.
pub still_in-without :
    (code used : String) (codes : List String)
    → str_eq code used ≡ false
    → is_in code codes ≡ true
    → is_in code (without_code used codes) ≡ true
unfolding select
still_in-without code used [] other h = h
still_in-without code used (c ∷ l) other h = elim (Bool-cases (str_eq code c)) [
  | inl here ↦
      let same : code ≡ c = (eq_iff code c).0 here in
      let kept : str_eq c used ≡ false = rw (sym same) other in rw (kept, here) refl
  | inr apart ↦ ground (arith, still_in-without code used l)
]

-- A row of the user that lists the code.
abbrev pub lists : String → ℕ → UserTotp → Bool
lists code pk t = totp_of pk t && is_in code t.backup_codes

module _ ⦃orm : Orm⦄ (code : String) (pk : ℕ) where
  -- No row of the user lists the code.
  abbrev pub IsSpent : orm.Table UserTotp → Type 0
  IsSpent totps = orm.filter (lists code pk) totps ≡ []

  -- Using a code spends it.
  pub use-IsSpent :
      (codes : List String) (totps : orm.Table UserTotp)
      → IsSpent (orm.save (totp_of pk) (set_codes (without_code code codes)) totps)
  use-IsSpent codes totps =
      filter-save_none (lists code pk) (totp_of pk) (set_codes (without_code code codes)) totps
        (λ t. ground (arith, not_in-without code codes))

  -- A save that adds no code.
  pub save-IsSpent :
      (q : UserTotp → Bool) (f : UserTotp → UserTotp) (totps : orm.Table UserTotp)
      → ((t : UserTotp) → lists code pk (f t) ≡ true → lists code pk t ≡ true)
      → IsSpent totps
      → IsSpent (orm.save q f totps)
  save-IsSpent q f totps adds_none =
      filter-save_within (lists code pk) (lists code pk) q f totps
        (λ t. ground (arith, adds_none t))

  -- Using another code, or one of another user, spends none back.
  pub without-IsSpent :
      (used : String) (t : UserTotp) (totps : orm.Table UserTotp)
      → lists code pk t ≡ false
      → IsSpent totps
      → IsSpent (orm.save (totp_of t.user) (set_codes (without_code used t.backup_codes)) totps)
  without-IsSpent used t totps unlisted =
      filter-save_within (lists code pk) (lists code pk) (totp_of t.user)
        (set_codes (without_code used t.backup_codes)) totps
        (λ r. ground (arith, is_in-without code used t.backup_codes))

  -- What the lookup of a user finds does not list a spent code.
  abbrev pub IsUnlisted : Option UserTotp → Type 0
  IsUnlisted none = Unit
  IsUnlisted (some t) = lists code pk t ≡ false

  pub first-IsUnlisted :
      (user : ℕ) (totps : orm.Table UserTotp)
      → IsSpent totps
      → IsUnlisted (first (totp_of user) totps)
  first-IsUnlisted user totps spent = elim (first_cases (totp_of user) totps) [
    | inl missing ↦ rw missing tt
    | inr (t, l, found, rows) ↦
        rw found
          (select_apart (lists code pk) (totp_of user) (orm.all totps) l t
            (sym (orm.filter_lem (lists code pk) totps) ∙ spent)
            (sym (orm.filter_lem (totp_of user) totps) ∙ rows)).1
  ]

  pub create-IsSpent :
      (user : User) (secret : String) (codes : List String) (totps : orm.Table UserTotp)
      → is_in code codes ≡ false
      → IsSpent totps
      → IsSpent (orm.create (new_totp user secret codes) totps)
  create-IsSpent user secret codes totps fresh =
      filter-create_none (lists code pk) (new_totp user secret codes) totps (ground arith)

  pub delete-IsSpent :
      (q : UserTotp → Bool) (totps : orm.Table UserTotp)
      → IsSpent totps
      → IsSpent (orm.delete q totps)
  delete-IsSpent q totps = filter-delete_none (lists code pk) q totps

  -- A spent code is in no row that the user's lookup finds.
  pub spent_unlisted :
      (totps : orm.Table UserTotp) (t : UserTotp) (l : List UserTotp)
      → IsSpent totps
      → orm.filter (totp_of pk) totps ≡ t ∷ l
      → is_in code t.backup_codes ≡ false
  spent_unlisted totps t l spent found =
      let (owned, unlisted) =
        select_apart (lists code pk) (totp_of pk) (orm.all totps) l t
          (sym (orm.filter_lem (lists code pk) totps) ∙ spent)
          (sym (orm.filter_lem (totp_of pk) totps) ∙ found) in
      ground arith
