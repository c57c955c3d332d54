-- ===== src/Common/Tests.antt =====
-- Runs of the shared parts on concrete values.
use Prim.Native.String.{char_at}
use django_saas_kit.Common.Names.{Word}
use django_saas_kit.Common.Following.{by_view, by_task, SetOff, SetOff-Traced}
use django_saas_kit.Common.Tracing.{
  publish_all, in_task, Headers, trace_of, in_request, Contextvars,
}
use django_saas_kit.Text.{lower, append, is_blank}
use django_saas_kit.Features.Dict.{put, get}
use django_saas_kit.Base.{
  inr, inl, str_eq, if◌then◌else◌, String, Option, List, none, some, [], ◌∷◌, true, false, ◌≡◌,
  refl, select,
}
use django_saas_kit.Orm.{memory}
use django_saas_kit.Common.SoftDelete.{
  Record, delete_record, restore_record, objects, all_objects, with_record_pk,
}
use django_saas_kit.Common.Restoring.{delete_restore}
use django_saas_kit.Common.Envelope.{
  Raised, saas_exception_handler, items, fields, field, end_items, end_fields,
}
use django_saas_kit.Common.Messages.{envelope_error, envelope_message}

abbrev note : Record
note = record { pk = 1; title = "note"; is_deleted = false; deleted_at = none; deleted_by = none }

abbrev notes : List Record
notes = note ∷ record note { pk = 2 } ∷ []

delete_restore_example :
    let (self, t1) = delete_record 50 (some 9) note notes in
    let (back, t2) = restore_record self t1 in
    (objects (with_record_pk 1) t1 ≡ [])
    × (all_objects (with_record_pk 1) t1
        ≡ record note { is_deleted = true; deleted_at = some 50; deleted_by = some 9 } ∷ [])
    × ((back ≡ note)
        × (objects (with_record_pk 1) t2 ≡ note ∷ [])
        × (all_objects (with_record_pk 1) t2 ≡ note ∷ []))
unfolding select
delete_restore_example = delete_restore 50 (some 9) note notes refl refl refl refl

-- An empty list of messages for a field.
abbrev bad_email : Raised
bad_email = record {
  default_code = some "permission_denied";
  class_name = "PermissionDenied";
  detail = some (fields (field "email" (items end_items) end_fields));
  text = "";
  is_validation = false;
}

envelope_message_example :
    let (status, envelope) = saas_exception_handler (λ fs. "{}") (some 403) bad_email in
    (is_blank envelope.message ≡ false) × (status ≡ 403)
envelope_message_example = envelope_message (λ fs. "{}") (λ fs. refl) (some 403) bad_email tt

abbrev not_allowed : Raised
not_allowed = record {
  default_code = none;
  class_name = "MethodNotAllowed";
  detail = none;
  text = "Method not allowed.";
  is_validation = false;
}

abbrev three_words : List Word
three_words =
    record { capital = char_at "M" 0; letter = char_at "e" 0; letters = "thod" }
    ∷ record { capital = char_at "N" 0; letter = char_at "o" 0; letters = "t" }
    ∷ record { capital = char_at "A" 0; letter = char_at "l" 0; letters = "lowed" }
    ∷ []

envelope_error_example :
    (saas_exception_handler (λ fs. "{}") (some 405) not_allowed).1.error ≡ "method_not_allowed"
unfolding append lower
envelope_error_example =
    envelope_error (λ fs. "{}") 405 not_allowed "method_not_allowed"
      (inr (
        inl refl,
        three_words,
        ((refl, refl, refl), ((refl, refl, refl), ((refl, refl, refl), tt))),
        refl,
        refl,
      ))

-- The variables of a thread as a function of their keys.
abbrev contextvars : Contextvars
contextvars = record {
  Vars = String → Option String;
  clear = λ vars key. none;
  bind = λ k value vars key. if str_eq k key then some value else vars key;
  lookup = λ key vars. vars key;
  lookup-clear = λ key vars. refl;
  lookup-bind = λ k key value vars. refl;
}

abbrev no_vars : String → Option String
no_vars key = none

abbrev of_request : Option Headers
of_request = some (("trace_id", "req-1") ∷ [])

-- A view publishes a task, and the task another one in a worker that still has variables.
set_off : SetOff contextvars "uuid" (some "req-1") ([] ∷ []) no_vars of_request
unfolding in_request in_task publish_all put get
set_off =
    by_task "uuid'" (λ key. some "old") ([] ∷ []) (by_view {h = of_request} (inl refl)) (inl refl)

SetOff-Traced_example : trace_of of_request ≡ some "req-1"
SetOff-Traced_example =
    SetOff-Traced contextvars "uuid" (some "req-1") ([] ∷ []) no_vars refl set_off
