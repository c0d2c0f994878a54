-- ===== src/Record/Errors.antt =====
-- What the record functions share: plain annotations, the exception that is under way, and an error
-- that the extension tells.
use molten.Common.{
  Bool, true, false, Option, none, some, List, [], ◌∷◌, Bytes, codes, c_string, if◌then◌else◌, ℤ,
}
use molten.Zval.{Zval, long, double, boolean, string, array, null, object, resource}
use molten.Span.{ba_normal, ba_sa, ba_error}
use molten.Span.Builder.{Annotation, annotation, annotation_ex}
use molten.Record.Engine.{Frame, Tracer}

-- A `zval` of type IS_STRING as the text that C sees, and one of type IS_LONG.
abbrev pub raw_string : Zval → Option Bytes
raw_string (string s) = some s
raw_string (long n) = none
raw_string (double n) = none
raw_string (boolean b) = none
raw_string (array a) = none
raw_string null = none
raw_string (object h) = none
raw_string (resource r) = none

abbrev pub cut : Option Bytes → Option Bytes
cut none = none
cut (some s) = some (c_string s)

abbrev pub string_of : Zval → Option Bytes
string_of v = cut (raw_string v)

-- The same for a string that is not empty.
abbrev pub not_empty : Option Bytes → Option Bytes
not_empty none = none
not_empty (some []) = none
not_empty (some (c ∷ s)) = some (c ∷ s)

abbrev pub message_of : Zval → Option Bytes
message_of v = cut (not_empty (raw_string v))

abbrev pub long_of : Zval → Option ℤ
long_of (long n) = some n
long_of (string s) = none
long_of (double n) = none
long_of (boolean b) = none
long_of (array a) = none
long_of null = none
long_of (object h) = none
long_of (resource r) = none

abbrev pub is_false : Zval → Bool
is_false (boolean false) = true
is_false (boolean true) = false
is_false (long n) = false
is_false (double n) = false
is_false (string s) = false
is_false (array a) = false
is_false null = false
is_false (object h) = false
is_false (resource r) = false

abbrev pub is_object : Zval → Bool
is_object (object h) = true
is_object (long n) = false
is_object (double n) = false
is_object (boolean b) = false
is_object (string s) = false
is_object (array a) = false
is_object null = false
is_object (resource r) = false

abbrev pub is_resource : Zval → Bool
is_resource (resource r) = true
is_resource (long n) = false
is_resource (double n) = false
is_resource (boolean b) = false
is_resource (string s) = false
is_resource (array a) = false
is_resource null = false
is_resource (object h) = false

module _ (t : Tracer) (f : Frame t.mode.Context) where
  -- `span_add_ba_ex(span, key, value, frame->exit_time, pit->pct, BA_NORMAL)`, and with BA_ERROR.
  abbrev pub note : Bytes → Bytes → List Annotation
  note key value = annotation_ex key value f.exit_time ba_normal ∷ []

  abbrev pub error_note : Bytes → List Annotation
  error_note value = annotation_ex (codes "error") value f.exit_time ba_error ∷ []

  -- A value that may be NULL: every format then adds nothing.
  abbrev pub note? : Bytes → Option Bytes → List Annotation
  note? key none = []
  note? key (some value) = note key value

  abbrev pub error_note? : Option Bytes → List Annotation
  error_note? none = []
  error_note? (some value) = error_note value

  -- `span_add_ba(span, "sa", "true", frame->exit_time, service_name, host, port, BA_SA)`
  abbrev pub server_note : Bytes → Option Bytes → ℤ → List Annotation
  server_note service_name host port =
      annotation (codes "sa") (codes "true") f.exit_time service_name host port ba_sa ∷ []

  -- `SET_SPAN_EXCEPTION_EX`, for the exception `e`.
  unfoldable pub set_span_exception : Bytes → Zval → List Annotation
  set_span_exception exception_ce e =
      if t.php.instance_of e exception_ce
      then annotation (codes "error")
          (c_string (t.php.to_string (t.php.read_property e (codes "message")))) f.exit_time
          t.pct.service_name (some t.pct.ip) t.pct.port ba_error
        ∷ []
      else []

  -- `PDO_SET_EXCEPTION`, `SET_DEFAULT_EXCEPTION` and the like, with the name of the class.
  abbrev pub exception_notes : Bytes → Option Zval → List Annotation
  exception_notes exception_ce none = []
  exception_notes exception_ce (some e) = set_span_exception exception_ce e

  unfoldable pub set_default_exception : List Annotation
  set_default_exception = exception_notes (codes "Exception") t.php.exception
