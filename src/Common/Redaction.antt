-- ===== src/Common/Redaction.antt =====
-- apps/common/logging_config.py: the redaction of sensitive fields in log entries. The values of an
-- entry are taken as texts.
use django_saas_kit.Base.{
  str_eq_sym, ◌∙◌, Option-cases, sym, eq_iff, List, Bool, Option, String, none, some, [], ◌∷◌, ◌≡◌,
  refl, str_eq, if◌then◌else◌, is_some, Bool-cases, true, false, inl, inr,
}
use django_saas_kit.Features.Dict.{get, put, get-put}
use django_saas_kit.Rbac.Service.{is_in}

-- `SENSITIVE_FIELDS`, a set: the order in which it is gone through is not known.
abbrev pub sensitive_fields : List String
sensitive_fields =
    "password" ∷ "new_password" ∷ "old_password" ∷ "confirm_password" ∷ "token" ∷ "access_token"
    ∷ "refresh_token" ∷ "reset_token" ∷ "id_token" ∷ "authorization" ∷ "email" ∷ "secret"
    ∷ "api_key" ∷ "secret_key" ∷ "credit_card" ∷ "ssn" ∷ []

abbrev pub redacted : String
redacted = "[REDACTED]"

-- The loop of `redact_sensitive_fields` over the fields in some order.
unfoldable pub redact_fields : List String → List (String × String) → List (String × String)
redact_fields [] event = event
redact_fields (field ∷ fields) event =
    redact_fields fields (if is_some (get field event) then put field redacted event else event)

-- What an entry may show under a key.
abbrev pub shown : Bool → Option String → Option String
shown sensitive none = none
shown sensitive (some value) = if sensitive then some redacted else some value

-- A marker stays a marker.
shown_marker : (b : Bool) → shown b (some redacted) ≡ some redacted
shown_marker true = refl
shown_marker false = refl

shown_all : (o : Option String) → shown false o ≡ o
shown_all none = refl
shown_all (some value) = refl

-- One turn of the loop: under its own key the entry shows the marker, if anything,
turn_here :
    (field : String) (event : List (String × String))
    → get field (if is_some (get field event) then put field redacted event else event)
      ≡ shown true (get field event)
turn_here field event = elim (Option-cases (get field event)) [
  | inl missing ↦ rw (missing, missing) refl
  | inr (value, held) ↦
      let same : str_eq field field ≡ true = (eq_iff field field).1 refl in
      rw (held, get-put, same) refl
]

-- ... and under every other key what it showed.
turn_other :
    (field key : String) (event : List (String × String))
    → str_eq field key ≡ false
    → get key (if is_some (get field event) then put field redacted event else event)
      ≡ get key event
turn_other field key event apart = elim (Bool-cases (is_some (get field event))) [
  | inl held ↦ rw (held, get-put, apart) refl
  | inr missing ↦ rw missing refl
]

shown_twice : (b : Bool) (o : Option String) → shown b (shown true o) ≡ shown true o
shown_twice b none = refl
shown_twice b (some value) = shown_marker b

-- Whatever the order of the fields, a redacted entry has the keys that it had, shows nothing but the
-- marker under a key of the list, and under every other key the value that it had.
pub get-redact_fields :
    (fields : List String) (event : List (String × String)) (key : String)
    → get key (redact_fields fields event) ≡ shown (is_in key fields) (get key event)
unfolding redact_fields
get-redact_fields [] event key = sym (shown_all (get key event))
get-redact_fields (field ∷ fields) event key =
    let event' : List (String × String) =
      if is_some (get field event) then put field redacted event else event in
    let rest : get key (redact_fields fields event') ≡ shown (is_in key fields) (get key event') =
      get-redact_fields fields event' key in
    elim (Bool-cases (str_eq key field)) [
      | inl same ↦
          let p : key ≡ field = (eq_iff key field).0 same in
          let now : get key event' ≡ shown true (get key event) = rw p (turn_here field event) in
          rest ∙ rw (same, now) (shown_twice (is_in key fields) (get key event))
      | inr other ↦
          let now : get key event' ≡ get key event =
            turn_other field key event (str_eq_sym key field other) in
          rest ∙ rw (other, now) refl
    ]
