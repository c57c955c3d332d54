-- ===== src/Common/Messages.antt =====
-- The message of an error reply is never blank where the exception has something to say.
use django_saas_kit.Common.Names.{camel_to_snake_lem, snake, camel, AllWords, Word}
use Prim.Native.String.{[], ◌∷◌}
use django_saas_kit.Base.{
  ◌⊎◌, List, Option, String, ℕ, none, some, false, ◌≡◌, refl, Bool-cases, inl, inr,
}
use django_saas_kit.Text.{is_blank, append}
use django_saas_kit.Common.Envelope.{
  message_or, server_error, Detail, Items, Fields, plain, error_detail, items, fields, item, field,
  end_items, end_fields, flatten_detail, flatten_items, flatten_fields, fallback, labelled, Raised,
  Envelope, saas_exception_handler,
}

labelled_says : (key msg : String) → is_blank msg ≡ false → is_blank (labelled key msg) ≡ false
unfolding append
labelled_says key msg h = after_label key
  where
    after_label : (k : String) → is_blank (append k (append ": " msg)) ≡ false
    after_label [] = refl
    after_label (c ∷ k) = refl

items_say : (str : Fields → String) (xs : Items) → is_blank (flatten_items str xs) ≡ false
unfolding flatten_detail
items_say str end_items = refl
items_say str (item d xs) = elim (Bool-cases (is_blank (flatten_detail str d))) [
  | inl blank ↦ rw blank (items_say str xs)
  | inr says ↦ rw says says
]

fields_say :
    (str : Fields → String) (fs : Fields) (otherwise : String)
    → is_blank otherwise ≡ false
    → is_blank (flatten_fields str fs otherwise) ≡ false
unfolding flatten_detail
fields_say str end_fields otherwise h = h
fields_say str (field key d fs) otherwise h = elim (Bool-cases (is_blank (flatten_detail str d))) [
  | inl blank ↦ rw blank (fields_say str fs otherwise h)
  | inr says ↦ rw says (labelled_says key (flatten_detail str d) says)
]

-- A text that is not blank; a list or a dict needs none.
abbrev pub HasWords : String → Option Detail → Type 0
HasWords text none = is_blank text ≡ false
HasWords text (some (plain t)) = is_blank t ≡ false
HasWords text (some (error_detail message code)) = is_blank message ≡ false
HasWords text (some (items xs)) = Unit
HasWords text (some (fields fs)) = Unit

-- An exception with something to say.
abbrev pub Says : Raised → Type 0
Says exc = HasWords exc.text exc.detail

fallback_says :
    (str : Fields → String)
    → ((fs : Fields) → is_blank (str fs) ≡ false)
    → (fs : Fields) → is_blank (fallback str fs) ≡ false
fallback_says str reads end_fields = refl
fallback_says str reads (field key d fs) = reads (field key d fs)

detail_says :
    (str : Fields → String)
    → ((fs : Fields) → is_blank (str fs) ≡ false)
    → (text : String) (found : Option Detail) → HasWords text found
    → is_blank (message_or str text found) ≡ false
unfolding flatten_detail
detail_says str reads text none says = says
detail_says str reads text (some (plain t)) says = says
detail_says str reads text (some (error_detail message code)) says = says
detail_says str reads text (some (items xs)) says = items_say str xs
detail_says str reads text (some (fields fs)) says =
    fields_say str fs (fallback str fs) (fallback_says str reads fs)

-- The status is that of the answer, or 500 with nothing of the exception.
abbrev pub Answers : Option ℕ → ℕ → Envelope → Type 0
Answers none status envelope = (status ≡ 500) × (envelope ≡ server_error)
Answers (some code) status envelope = status ≡ code

-- Where no dict has a blank text, every exception that has a text, or a list or a dict of details,
-- be it empty, gets a reply with a message that is not blank; the status is that of the framework's
-- handler, or 500 where it knows no reply, and then nothing of the exception is shown.
pub envelope_message :
    (str : Fields → String)
    → ((fs : Fields) → is_blank (str fs) ≡ false)
    → (answered : Option ℕ) (exc : Raised) → Says exc
    → let (status, envelope) = saas_exception_handler str answered exc in
      (is_blank envelope.message ≡ false) × Answers answered status envelope
unfolding saas_exception_handler
envelope_message str reads none exc says = (refl, (refl, refl))
envelope_message str reads (some code) exc says = elim (Bool-cases exc.is_validation) [
  | inl validation ↦ rw validation (refl, refl)
  | inr other ↦ rw other (detail_says str reads exc.text exc.detail says, refl)
]

-- No default code, or a blank one.
abbrev pub HasNoCode : Raised → Type 0
HasNoCode exc = (exc.default_code ≡ none) ⊎ (exc.default_code ≡ some "")

-- The code is the default code of the exception, where it has one that is not blank. Without one the
-- name of its class is words, each a capital and small letters, and the code is these words in small
-- letters, with an underscore between two.
abbrev pub IsCodeOf : String → Raised → Type 0
IsCodeOf code exc =
    ((exc.default_code ≡ some code) × (is_blank code ≡ false))
    ⊎ (HasNoCode exc
        × (ws : List Word) × AllWords ws
        × (exc.class_name ≡ camel ws)
        × (code ≡ snake ws))

-- The reply to an exception that the framework answers has the default code of the exception, where
-- it has one that is not blank, whatever its class is called. Without one, and where the name of its
-- class is words, each a capital and small letters, the code is these words in small letters, with
-- an underscore between two.
pub envelope_error :
    (str : Fields → String) (status : ℕ) (exc : Raised) (code : String)
    → IsCodeOf code exc
    → (saas_exception_handler str (some status) exc).1.error ≡ code
unfolding saas_exception_handler
envelope_error str status exc code (inl (given, says)) = rw (given, says) refl
envelope_error str status exc code (inr (inl missing, ws, words, named, spelled_so)) =
    rw (missing, named, camel_to_snake_lem ws words, spelled_so) refl
envelope_error str status exc code (inr (inr blank, ws, words, named, spelled_so)) =
    rw (blank, named, camel_to_snake_lem ws words, spelled_so) refl
