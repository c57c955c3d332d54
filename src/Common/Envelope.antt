-- ===== src/Common/Envelope.antt =====
-- apps/common/exceptions.py: the envelope of every error reply. What Django's and the REST
-- framework's own handler answers, and the text of a Python value, are arguments.
use django_saas_kit.Common.SnakeCase.{camel_to_snake}
use django_saas_kit.Text.{append, is_blank}
use django_saas_kit.Base.{Bool, Option, String, ℕ, none, some, if◌then◌else◌}

-- `exc.detail`: an `ErrorDetail` is a text with a code; lists and dicts hold details.
mutual
  pub data Detail : Type 0 where
    plain : String → Detail
    error_detail : (message code : String) → Detail
    items : Items → Detail
    fields : Fields → Detail

  pub data Items : Type 0 where
    end_items : Items
    item : Detail → Items → Items

  pub data Fields : Type 0 where
    end_fields : Fields
    field : (key : String) → Detail → Fields → Fields

-- `_serialise_detail`
unfoldable mutual
  pub serialise_detail : Detail → Detail
  serialise_detail (plain text) = plain text
  serialise_detail (error_detail message code) = plain message
  serialise_detail (items xs) = items (serialise_items xs)
  serialise_detail (fields fs) = fields (serialise_fields fs)

  pub serialise_items : Items → Items
  serialise_items end_items = end_items
  serialise_items (item d xs) = item (serialise_detail d) (serialise_items xs)

  pub serialise_fields : Fields → Fields
  serialise_fields end_fields = end_fields
  serialise_fields (field key d fs) = field key (serialise_detail d) (serialise_fields fs)

-- `str(detail) if detail else "An error occurred."` for a dict
abbrev pub fallback : (Fields → String) → Fields → String
fallback str end_fields = "An error occurred."
fallback str (field key d fs) = str (field key d fs)

-- `f"{key}: {msg}"`
abbrev pub labelled : (key msg : String) → String
labelled key msg = append key (append ": " msg)

-- `_flatten_detail`; the loops return at the first message that is not blank
unfoldable mutual
  pub flatten_detail : (Fields → String) → Detail → String
  flatten_detail str (plain text) = text
  flatten_detail str (error_detail message code) = message
  flatten_detail str (items xs) = flatten_items str xs
  flatten_detail str (fields fs) = flatten_fields str fs (fallback str fs)

  pub flatten_items : (Fields → String) → Items → String
  flatten_items str end_items = "Invalid input."
  flatten_items str (item d xs) =
      let msg = flatten_detail str d in
      let rest = flatten_items str xs in if is_blank msg then rest else msg

  pub flatten_fields : (Fields → String) → Fields → String → String
  flatten_fields str end_fields otherwise = otherwise
  flatten_fields str (field key d fs) otherwise =
      let msg = flatten_detail str d in
      let rest = flatten_fields str fs otherwise in if is_blank msg then rest else labelled key msg

-- What the handler reads of an exception: its `default_code`, its class name, its `detail`, its text, and whether it is a `ValidationError`.
pub record Raised : Type 0 where
  pub default_code : Option String
  pub class_name : String
  pub detail : Option Detail
  pub text : String
  pub is_validation : Bool

pub record Envelope : Type 0 where
  pub error : String
  pub message : String
  pub details : Detail

abbrev pub server_error : Envelope
server_error = record {
  error = "server_error";
  message = "An unexpected error occurred.";
  details = fields end_fields;
}

-- `handler404` and `handler500`, which the URLs name for what the framework does not handle
abbrev pub handler404 : ℕ × Envelope
handler404 = (
  404,
  record {
    error = "not_found";
    message = "The requested resource was not found.";
    details = fields end_fields;
  },
)

abbrev pub handler500 : ℕ × Envelope
handler500 = (
  500,
  record {
    error = "server_error";
    message = "An unexpected error occurred.";
    details = fields end_fields;
  },
)

-- `x or y` for a text that may be missing
abbrev pub code_or : Option String → String → String
code_or none other = other
code_or (some code) other = if is_blank code then other else code

-- The details of a validation error: a list stands under one key.
abbrev pub keyed : Detail → Detail
keyed (plain text) = plain text
keyed (error_detail message code) = error_detail message code
keyed (items xs) = fields (field "non_field_errors" (items xs) end_fields)
keyed (fields fs) = fields fs

abbrev pub validation_details : Option Detail → Detail
validation_details none = fields end_fields
validation_details (some d) = keyed (serialise_detail d)

-- The flattened detail, or else the text of the exception.
abbrev pub message_or : (Fields → String) → String → Option Detail → String
message_or str text none = text
message_or str text (some d) = flatten_detail str d

-- `saas_exception_handler`, on the status of the reply of the framework's handler, if there is one
unfoldable pub saas_exception_handler : (Fields → String) → Option ℕ → Raised → ℕ × Envelope
unfolding serialise_detail flatten_detail camel_to_snake
saas_exception_handler str none exc = (500, server_error)
saas_exception_handler str (some status) exc = (
  status,
  record {
    error = code_or exc.default_code (camel_to_snake exc.class_name);
    message = if exc.is_validation then "Invalid input." else message_or str exc.text exc.detail;
    details = if exc.is_validation then validation_details exc.detail else fields end_fields;
  },
)
