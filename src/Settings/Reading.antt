-- ===== src/Settings/Reading.antt =====
-- Whether reading a setting raises, and whether reading several ones does.
use django_saas_kit.Base.{
  ◌∷◌, [], ap, String, Bool, true, false, Option, none, some, List, ◌≡◌, inl, inr, refl,
  Option-cases, Bool-cases, is_empty,
}
use django_saas_kit.Orm.{ok, err}
use django_saas_kit.Settings.{
  bad_database_url, improperly_configured, overflow, Decouple, Setting, SettingsError, ◌>>=◌, ℤ,
  cast_or_raise, get_required, get_str, get_bool, get_int, get_csv, get_database_url_config,
  timedelta, configured, undefined_value,
}

-- `m` returns exactly where `P` holds, and then a value with a property; otherwise it raises.
pub data Decided {A : Type 0} (P : Type 0) (m : Setting A) (Φ : A → Type 0) : Type 0 where
  returns : P → (a : A) → m ≡ ok a → Φ a → Decided P m Φ
  raises : (¬ P) → (e : SettingsError) → m ≡ err e → Decided P m Φ

-- All of some conditions.
abbrev pub All : List (Type 0) → Type 0
All [] = Unit
All (P ∷ l) = P × All l

infixr 4 ◌&◌
abbrev pub ◌&◌ : {A B : Type 0} → A → B → A × B
◌&◌ a b = (a, b)

-- A sequence of readings, each with its condition.
pub data AllDecided {A : Type 0} (Ps : List (Type 0)) (m : Setting A) (Φ : A → Type 0)
    : Type 0 where
  all_decided : Decided (All Ps) m Φ → AllDecided Ps m Φ

pub Decided-then :
    {A B : Type 0} {P : Type 0} {Ps : List (Type 0)} {m : Setting A} {f : A → Setting B}
    {Φ : A → Type 0} {Ψ : B → Type 0}
    → Decided P m Φ
    → ((a : A) → Φ a → AllDecided Ps (f a) Ψ)
    → AllDecided (P ∷ Ps) (m >>= f) Ψ
Decided-then (raises never e fails) next =
    all_decided (raises (λ both. never both.0) e (rw fails refl))
Decided-then {P = P} {Ps = Ps} {m = m} {f = f} {Ψ = Ψ} (returns p a done φ) next =
    after_it (next a φ)
  where
    after_it : AllDecided Ps (f a) Ψ → AllDecided (P ∷ Ps) (m >>= f) Ψ
    after_it (all_decided (returns q b goes_on ψ)) =
        all_decided (returns (p, q) b (rw done goes_on) ψ)
    after_it (all_decided (raises never e fails)) =
        all_decided (raises (λ both. never both.1) e (rw done fails))

pub Decided-ok : {A : Type 0} {Φ : A → Type 0} (a : A) → Φ a → AllDecided [] (ok a) Φ
Decided-ok a φ = all_decided (returns tt a refl φ)

-- A sequence as one reading.
pub as_one :
    {A : Type 0} {Ps : List (Type 0)} {m : Setting A} {Φ : A → Type 0}
    → AllDecided Ps m Φ
    → Decided (All Ps) m Φ
as_one (all_decided d) = d

-- A value that may be missing is there.
abbrev pub IsRead : {A : Type 0} → Option A → Type 0
IsRead {A} o = (a : A) × (o ≡ some a)

cast-Decided :
    {A : Type 0} (key : String) (o : Option A)
    → Decided (IsRead o) (cast_or_raise key o) (λ a. o ≡ some a)
cast-Decided key none = raises (λ h. absurd (cc h.1)) _ refl
cast-Decided key (some a) = returns (a, refl) a refl refl

module _ (config : Decouple) where
  -- A variable with its cast, or the default where it is undefined.
  abbrev pub cast_of : {A : Type 0} → (String → Option A) → (key : String) → A → Option A
  cast_of cast key default = elim (config.find key) [ none ↦ some default | some v ↦ cast v ]

  abbrev pub text_of : (key : String) → String
  text_of key = elim (config.find key) [ none ↦ "" | some v ↦ v ]

  pub get_required-Decided :
      (key : String)
      → Decided (IsRead (config.find key)) (get_required config key) (λ v. config.find key ≡ some v)
  unfolding get_required
  get_required-Decided key = elim (Option-cases (config.find key)) [
    | inl missing ↦
        raises (λ h. absurd (cc (missing, h.1))) (undefined_value (key ∷ []))
          (rw (get_required, missing) refl)
    | inr (v, found) ↦ returns (v, found) v (rw (get_required, found) refl) found
  ]

  get_bool_lem :
      (key : String) (default : Bool)
      → get_bool config key default ≡ cast_or_raise key (cast_of config.to_bool key default)
  unfolding get_bool
  get_bool_lem key default = elim (Option-cases (config.find key)) [
    | inl missing ↦ rw (get_bool, cast_of, missing) refl
    | inr (v, found) ↦ rw (get_bool, cast_of, found) refl
  ]

  pub get_bool-Decided :
      (key : String) (default : Bool)
      → Decided
          (IsRead (cast_of config.to_bool key default))
          (get_bool config key default)
          (λ b. cast_of config.to_bool key default ≡ some b)
  get_bool-Decided key default =
      rw (get_bool_lem key default) (cast-Decided key (cast_of config.to_bool key default))

  get_int_lem :
      (key : String) (default : ℤ)
      → get_int config key (some default) ≡ cast_or_raise key (cast_of config.to_int key default)
  unfolding get_int
  get_int_lem key default = elim (Option-cases (config.find key)) [
    | inl missing ↦ rw (get_int, cast_of, missing) refl
    | inr (v, found) ↦ rw (get_int, cast_of, found) refl
  ]

  pub get_int-Decided :
      (key : String) (default : ℤ)
      → Decided
          (IsRead (cast_of config.to_int key default))
          (get_int config key (some default))
          (λ n. cast_of config.to_int key default ≡ some n)
  get_int-Decided key default =
      rw (get_int_lem key default) (cast-Decided key (cast_of config.to_int key default))

  pub get_str_lem : (key : String) → get_str config key "" ≡ ok (text_of key)
  unfolding get_str
  get_str_lem key = elim (Option-cases (config.find key)) [
    | inl missing ↦ rw (get_str, text_of, missing) refl
    | inr (v, found) ↦ rw (get_str, text_of, found) refl
  ]

  pub get_csv-Decided :
      (key : String)
      → Decided
          (IsRead (config.to_list (text_of key)))
          (get_csv config key "")
          (λ l. config.to_list (text_of key) ≡ some l)
  unfolding get_csv
  get_csv-Decided key = rw (get_str_lem key) (cast-Decided key (config.to_list (text_of key)))

  -- The URL of the database can be parsed.
  abbrev pub IsParsed : Type 0
  IsParsed =
      (url : String) × (config.find "DATABASE_URL" ≡ some url)
      × IsRead (config.parse_database_url url)

  pub get_database-Decided : Decided IsParsed (get_database_url_config config) (λ _. Unit)
  unfolding get_database_url_config get_required
  get_database-Decided = elim (Option-cases (config.find "DATABASE_URL")) [
    | inl missing ↦
        raises (λ h. absurd (cc (missing, h.1))) (undefined_value ("DATABASE_URL" ∷ []))
          (rw (get_required, missing) refl)
    | inr (url, found) ↦ elim (Option-cases (config.parse_database_url url)) [
      | inl bad ↦
          raises
            (λ h.
              let same : url ≡ h.0 = cc (found, h.1) in
              absurd (cc (bad, ap config.parse_database_url same, h.2.1)))
            bad_database_url (rw (get_required, found, bad) refl)
      | inr (conf, good) ↦
          returns (url, found, (conf, good)) conf (rw (get_required, found, good) refl) tt
    ]
  ]

  -- A number of days or minutes that fits.
  abbrev pub Fits : (ℤ → Bool) → Option ℤ → Type 0
  Fits fits o = (n : ℤ) × (o ≡ some n) × (fits n ≡ true)

  pub timedelta-Decided :
      (key : String) (fits : ℤ → Bool) (o : Option ℤ) (n : ℤ)
      → o ≡ some n
      → Decided (Fits fits o) (timedelta config key fits n) (λ _. Unit)
  timedelta-Decided key fits o n read = elim (Bool-cases (fits n)) [
    | inl small ↦ returns (n, read, small) n (rw small refl) tt
    | inr large ↦
        raises (λ h. let same : n ≡ h.0 = cc (read, h.1) in absurd (cc (large, ap fits same, h.2)))
          (overflow key) (rw large refl)
  ]

  -- A list with an item.
  abbrev pub IsFilled : Option (List String) → Type 0
  IsFilled o = (l : List String) × (o ≡ some l) × (is_empty l ≡ false)

  pub configured-Decided :
      (key : String) (o : Option (List String)) (l : List String)
      → o ≡ some l
      → Decided (IsFilled o) (configured config key l) (λ _. Unit)
  configured-Decided key o l read = elim (Bool-cases (is_empty l)) [
    | inr some_item ↦ returns (l, read, some_item) tt (rw some_item refl) tt
    | inl nothing ↦
        raises
          (λ h.
            let same : l ≡ h.0 = cc (read, h.1) in
            absurd (cc (nothing, ap (λ k. is_empty k) same, h.2)))
          (improperly_configured key) (rw nothing refl)
  ]
