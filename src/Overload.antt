-- ===== src/Overload.antt =====
-- The functions of molten.c that stand in the place of curl_setopt, curl_exec, curl_setopt_array and
-- curl_reset. What PHP parses of the arguments is an argument, `none` for FAILURE; a handle is the number
-- of a resource.
pub mod Exec
pub mod Reload
pub mod Restore
use molten.Common.{
  ℕ, ◌+◌, Bool, true, false, ◌&&◌, Option, none, some, List, [], ◌∷◌, ◌++◌, Bytes, codes, c_string,
  length, take, ltb, if◌then◌else◌, ℤ, pos, Result, ok, fault, ◌>>=◌,
}
use molten.Zval.{Zval, long, array, resource, Arr, empty, as_array, find_index}
use molten.Stack.{Stack}
use molten.Log.{ChainLog, add_span}
use molten.Span.{an_client, ba_normal}
use molten.Span.Builder.{Annotation, annotation_ex, start_with, annotate}
use molten.SpanContext.Defs.{SpanMode, retrieve_span_id, retrieve_parent_span_id, pop_span_context}
use molten.Chain.{ChainHeader, Prefixes}
use molten.Chain.Outgoing.{add_http_trace_header}
use molten.Record.Engine.{Engine, Tracer, Frame}
use molten.Record.Errors.{raw_string}
use molten.Record.Curl.{eq_ℤ, add_index, index_find, build_curl_bannotation}

-- What the functions hand to the original ones. A call whose arguments cannot be parsed fails there too,
-- and is not listed.
pub data Origin : Type 0 where
  setopt : ℤ → ℤ → Zval → Origin
  exec : ℤ → Origin
  setopt_array : ℤ → List (ℤ × Zval) → Origin
  reset : ℤ → Origin

-- The fields of the module that the functions read and write, the calls of the original functions, the
-- counter of the ids, and how often the clock was read.
pub record Session (C : Type 0) : Type 0 where
  pub curl_header_record : List (ℤ × Zval)
  pub internal_call : Bool
  pub span_stack : Stack C
  pub span_layer : ℤ
  pub component_id : ℤ
  pub log : ChainLog Arr
  pub origin : List Origin
  pub step : ℕ
  pub ticks : ℕ

-- The request: the builder of spans and the engine, the header and its prefixes, the clock, and
-- CURLOPT_HTTPHEADER.
pub record Request : Type 1 where
  pub tracer : Tracer
  pub prefixes : Prefixes
  pub pch : ChainHeader
  pub is_sampled : Bool
  pub clock : ℕ → ℕ
  pub http_header : ℤ

abbrev is_array : Option Arr → Bool
is_array none = false
is_array (some a) = true

-- `mo_zend_hash_index_del`
unfoldable pub del_index : ℤ → List (ℤ × Zval) → List (ℤ × Zval)
del_index i [] = []
del_index i ((j, w) ∷ cache) =
    let rest = del_index i cache in if eq_ℤ j i then rest else (j, w) ∷ rest

module _ (r : Request) where
  open r use {tracer}

  abbrev pub S : Type 0
  S = Session tracer.mode.Context

  abbrev pub to_origin : Origin → S → S
  to_origin call s = record s { origin = s.origin ++ (call ∷ []) }

  -- The header is kept, if it is one; what is set by molten itself is not.
  abbrev pub keep_header : ℤ → ℤ → Zval → S → S
  keep_header zid options zvalue s =
      if eq_ℤ options r.http_header && is_array (as_array (some zvalue))
      then record s { curl_header_record = add_index zid zvalue s.curl_header_record }
      else s

  abbrev pub before_setopt : Bool → Option (ℤ × ℤ × Zval) → S → S
  before_setopt true args s = record s { internal_call = false }
  before_setopt false none s = s
  before_setopt false (some (zid, options, zvalue)) s = keep_header zid options zvalue s

  abbrev pub origin_setopt : Option (ℤ × ℤ × Zval) → S → S
  origin_setopt none s = s
  origin_setopt (some (zid, options, zvalue)) s = to_origin (setopt zid options zvalue) s

  -- `molten_curl_setopt`
  unfoldable pub molten_curl_setopt : Option (ℤ × ℤ × Zval) → S → S
  molten_curl_setopt args s = origin_setopt args (before_setopt s.internal_call args s)

  abbrev pub keep_option : ℤ → Option Zval → S → S
  keep_option zid none s = s
  keep_option zid (some http_header) s = record s {
    curl_header_record = add_index zid http_header s.curl_header_record;
  }

  -- `molten_curl_setopt_array`, with the array of options by index
  unfoldable pub molten_curl_setopt_array : Option (ℤ × List (ℤ × Zval)) → S → S
  molten_curl_setopt_array none s = s
  molten_curl_setopt_array (some (zid, options)) s =
      to_origin (setopt_array zid options) (keep_option zid (index_find r.http_header options) s)

  -- `molten_curl_reset`
  unfoldable pub molten_curl_reset : Option ℤ → S → S
  molten_curl_reset none s = s
  molten_curl_reset (some zid) s =
      to_origin (reset zid) (record s { curl_header_record = del_index zid s.curl_header_record })

  -- The header lines that are added to: those that were set for the handle, which are changed in place, or
  -- a new array.
  abbrev pub add_lines : Option Arr → Zval → Option Bytes → Option Bytes → Result Zval
  add_lines none option span_id parent_span_id = ok option
  add_lines (some header) option span_id parent_span_id = do
    header' ← add_http_trace_header r.prefixes r.is_sampled r.pch span_id parent_span_id header
    ok (array header')

  abbrev pub with_lines : ℤ → Option Zval → Option Bytes → Option Bytes → S → Result (Zval × S)
  with_lines res none span_id parent_span_id s = do
    option ← add_lines (some empty) (array empty) span_id parent_span_id
    ok (option, s)
  with_lines res (some tmp) span_id parent_span_id s = do
    option ← add_lines (as_array (some tmp)) tmp span_id parent_span_id
    ok (option, record s { curl_header_record = add_index res option s.curl_header_record })

  abbrev pub parent_if : Bool → S → Result (Option Bytes)
  parent_if false s = ok none
  parent_if true s = retrieve_parent_span_id tracer.mode s.span_stack

  -- The header of the request is set by a call of `curl_setopt`, which is `molten_curl_setopt`.
  unfoldable pub build_header : ℤ → S → Result (Option Bytes × S)
  build_header res s = do
    span_id ← retrieve_span_id tracer.mode s.span_stack
    parent_span_id ← parent_if r.is_sampled s
    (option, s1) ← with_lines res (index_find res s.curl_header_record) span_id parent_span_id s
    ok (
      span_id,
      molten_curl_setopt (some (res, r.http_header, option)) (record s1 { internal_call = true }),
    )

  -- The response, at most 127 bytes of it.
  abbrev pub response_notes : ℕ → Option Bytes → List Annotation
  response_notes time none = []
  response_notes time (some []) = []
  response_notes time (some (c ∷ s)) =
      annotation_ex (codes "http.response")
        (if ltb 128 (length (c ∷ s)) then take 127 (c_string (c ∷ s)) else c_string (c ∷ s)) time
        ba_normal
      ∷ []

  -- A frame for the functions that read no more of it than the stack.
  abbrev pub bare_frame : S → Frame tracer.mode.Context
  bare_frame s = record {
    function = [];
    args = [];
    object = Zval.null;
    ret = Zval.null;
    entry_time = 0;
    exit_time = 0;
    span_extra = none;
    span_stack = s.span_stack;
  }

  -- The span of the call, when the original function has come back with `return_value`.
  unfoldable pub after_exec : ℤ → Option Bytes → ℕ → Zval → S → Result S
  after_exec res span_id entry_time return_value s = do
    let current_time = r.clock s.ticks
    parent_id ← retrieve_parent_span_id tracer.mode s.span_stack
    span ←
        start_with tracer.psb (codes "php_curl") tracer.pct entry_time current_time an_client
          span_id parent_id
    notes ← build_curl_bannotation tracer (bare_frame s) current_time (resource res) true
    stack' ← pop_span_context tracer.mode s.span_stack
    ok (record s {
      component_id = pos 2;
      span_layer = pos 3;
      log = add_span s.log (
          annotate tracer.psb tracer.pct
            (notes ++ response_notes current_time (raw_string return_value)) span);
      span_stack = stack';
      ticks = s.ticks + 1;
    })

  abbrev pub open_span : Bool → S → Result (ℕ × S)
  open_span false s = ok (0, s)
  open_span true s = do
    (step', stack') ← tracer.mode.push_span_context s.step s.span_stack
    ok (r.clock s.ticks, record s { step = step'; span_stack = stack'; ticks = s.ticks + 1 })

  abbrev pub close_span : Bool → ℤ → Option Bytes → ℕ → Zval → S → Result S
  close_span false res span_id entry_time return_value s = ok s
  close_span true res span_id entry_time return_value s =
      after_exec res span_id entry_time return_value s

  -- `molten_curl_exec`: where the arguments cannot be parsed, the span that was opened stays open.
  abbrev pub exec_parsed : Option ℤ → ℕ → Zval → S → Result S
  exec_parsed none entry_time return_value s = ok s
  exec_parsed (some res) entry_time return_value s = do
    (span_id, s1) ← build_header res s
    close_span r.is_sampled res span_id entry_time return_value (to_origin (exec res) s1)

  unfoldable pub molten_curl_exec : Option ℤ → Zval → S → Result S
  molten_curl_exec parsed return_value s = do
    (entry_time, s1) ← open_span r.is_sampled s
    exec_parsed parsed entry_time return_value s1
