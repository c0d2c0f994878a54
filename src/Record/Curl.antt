-- ===== src/Record/Curl.antt =====
-- The record functions for curl_multi, whose spans begin where a handle was added. The branches for the
-- SkyWalking format are left out.
use molten.Common.{
  Bool, true, false, Option, none, some, List, [], ◌∷◌, Bytes, codes, c_string, decimal_ℤ,
  if◌then◌else◌, ◌==◌, ℕ, ℤ, pos, negsuc, to_int64, to_uint64, Result, ok, fault, ◌>>=◌,
}
use molten.Zval.{
  Zval, long, double, boolean, string, array, null, object, resource, Arr, find, as_array,
}
use molten.Log.{add_span}
use molten.Span.{ba_normal, ba_error, an_client}
use molten.Span.Builder.{Annotation, annotation_ex, start_with, annotate}
use molten.SpanContext.Defs.{retrieve_span_id, retrieve_parent_span_id}
use molten.Record.Engine.{Frame, State, Tracer}
use molten.Record.Cache.{long_answer, message_answer}

abbrev pub eq_ℤ : ℤ → ℤ → Bool
eq_ℤ (pos a) (pos b) = a == b
eq_ℤ (negsuc a) (negsuc b) = a == b
eq_ℤ (pos a) (negsuc b) = false
eq_ℤ (negsuc a) (pos b) = false

-- `add_index_long` and `mo_zend_hash_index_zval_find`, on the cache of the interceptor.
unfoldable pub add_index : ℤ → Zval → List (ℤ × Zval) → List (ℤ × Zval)
add_index i v [] = (i, v) ∷ []
add_index i v ((j, w) ∷ cache) = if eq_ℤ j i then (i, v) ∷ cache else (j, w) ∷ add_index i v cache

unfoldable pub index_find : ℤ → List (ℤ × Zval) → Option Zval
index_find i [] = none
index_find i ((j, w) ∷ cache) = if eq_ℤ j i then some w else index_find i cache

-- The handle of a resource.
abbrev pub handle_of : Zval → Option ℤ
handle_of (resource r) = some r
handle_of (long n) = none
handle_of (double n) = none
handle_of (boolean b) = none
handle_of (string s) = none
handle_of (array a) = none
handle_of null = none
handle_of (object h) = none

-- The second argument, if it is a resource.
abbrev pub second_handle : List Zval → Option ℤ
second_handle [] = none
second_handle (first ∷ []) = none
second_handle (first ∷ second ∷ more) = handle_of second

abbrev pub info_value : Bytes → Option Arr → Option Zval
info_value name none = none
info_value name (some info) = find name info

abbrev pub array_answer : Option Zval → Option Arr
array_answer none = none
array_answer (some v) = as_array (some v)

module _ (t : Tracer) (f : Frame t.mode.Context) where
  abbrev pub cached : Option ℤ → State → State
  cached none s = s
  cached (some ch) s = record s {
    span_info_cache = add_index ch (long (to_int64 f.entry_time)) s.span_info_cache;
  }

  -- `curl_multi_add_handle_record`
  unfoldable pub curl_multi_add_handle_record : State → Result State
  curl_multi_add_handle_record s = ok (cached (second_handle f.args) s)

  -- `convert_to_string` and `convert_to_long` of a zval that must not be NULL.
  abbrev pub to_string : Option Zval → Result Bytes
  to_string none = fault
  to_string (some v) = ok (c_string (t.php.to_string v))

  abbrev pub to_long : Option Zval → Result ℤ
  to_long none = fault
  to_long (some v) = ok (t.php.to_long v)

  abbrev pub outcome : ℕ → Option Bytes → Option Zval → Result (List Annotation)
  outcome timestamp (some errstr) http_code =
      ok (annotation_ex (codes "error") errstr timestamp ba_error ∷ [])
  outcome timestamp none http_code = do
    code ← to_long http_code
    ok (annotation_ex (codes "http.status") (decimal_ℤ code) timestamp ba_normal ∷ [])

  abbrev pub check : Bool → ℕ → Zval → Option Zval → Result (List Annotation)
  check false timestamp handle http_code = ok []
  check true timestamp handle http_code =
      outcome timestamp (message_answer (t.php.call_function (codes "curl_error") (handle ∷ [])))
        http_code

  -- `build_curl_bannotation`: what it puts on the span.
  unfoldable pub build_curl_bannotation : ℕ → Zval → Bool → Result (List Annotation)
  build_curl_bannotation timestamp handle check_error =
      let info = array_answer (t.php.call_function (codes "curl_getinfo") (handle ∷ [])) in
      do
        url ← to_string (info_value (codes "url") info)
        rest ← check check_error timestamp handle (info_value (codes "http_code") info)
        ok (annotation_ex (codes "http.url") url timestamp ba_normal ∷ rest)

  -- The span of a handle that was added at `start_time`.
  unfoldable pub curl_span : ℤ → ℤ → State → Result State
  curl_span ch start_time s = do
    id ← retrieve_span_id t.mode f.span_stack
    parent_id ← retrieve_parent_span_id t.mode f.span_stack
    span ←
        start_with t.psb (codes "php_curl_multi") t.pct (to_uint64 start_time) f.exit_time an_client
          id parent_id
    list ← build_curl_bannotation f.exit_time (resource ch) true
    ok (record s { log = add_span s.log (annotate t.psb t.pct list span) })

  abbrev pub if_started : Option ℤ → ℤ → State → Result State
  if_started none ch s = ok s
  if_started (some start_time) ch s = curl_span ch start_time s

  abbrev pub removed : Option ℤ → State → Result State
  removed none s = ok s
  removed (some ch) s = if_started (long_answer (index_find ch s.span_info_cache)) ch s

  -- `curl_multi_remove_handle_record`
  unfoldable pub curl_multi_remove_handle_record : State → Result State
  curl_multi_remove_handle_record s = removed (second_handle f.args) s
