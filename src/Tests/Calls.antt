-- ===== src/Tests/Calls.antt =====
-- Calls of other services at concrete inputs.
use molten.Common.{
  ℕ, ◌≡◌, refl, true, false, none, some, List, [], ◌∷◌, ◌++◌, map, Bytes, codes, bytes_eq,
  if◌then◌else◌, arith, pos, ok,
}
use molten.Control.{ServerVar, missing, other}
use molten.Control
use molten.Stack.{Stack}
use molten.Stack.Contents.{Holds}
use molten.SpanContext.Defs.{Opens}
use molten.SpanContext.Random.{random_mode, random_laws}
use molten.Zval.{Zval, Arr, empty, array, add_assoc, find, has_name, values}
use molten.Ids.{decimal_int}
use molten.Span.Builder.{zipkin}
use molten.Span.Links.{zipkin_id, zipkin_parent, zipkin_laws}
use molten.Chain.{ChainHeader, init_header, build_header}
use molten.Chain.Outgoing.{header_with, string_line, sent, add_http_trace_header}
use molten.Chain.Propagation.{outgoing-continues}
use molten.Record.Engine.{Engine}
use molten.Overload.{Session, Request, molten_curl_exec}
use molten.Overload.Exec.{first_id, molten_curl_exec-Adds, molten_curl_exec-left_open}
use molten.Tests.Tracing.{names}
use molten.Tests.Records.{engine}
use molten.Tests.Whole.{prefixes, fresh_stack, fresh_stack-Holds, no_spans}

-- The variables of a request with the five lines.
abbrev called : Bytes → ServerVar
called key =
    if bytes_eq key (codes "HTTP_X_W_TRACEID")
    then Control.string (codes "t")
    else if bytes_eq key (codes "HTTP_X_W_SPANID")
    then Control.string (codes "7")
    else if bytes_eq key (codes "HTTP_X_W_PARENTSPANID")
    then Control.string (codes "6")
    else if bytes_eq key (codes "HTTP_X_W_SAMPLED")
    then Control.string (codes "1")
    else if bytes_eq key (codes "HTTP_X_W_FLAGS")
    then Control.string (codes "0")
    else missing

outgoing-continues_example :
    let pch = header_with prefixes [] (pos 0) (codes "t") none none (codes "1") (codes "0") in
    let ls = sent prefixes (codes "t") (codes "7") (codes "6") (codes "1") (codes "0") in
    (header' : Arr) × (add_http_trace_header prefixes true pch
        (some (codes "7"))
        (some (codes "6"))
        empty
      ≡ ok header')
    × (values header' ≡ values empty ++ map string_line ls)
    × ((step' : ℕ) × (s' : Stack Bytes) × (pch' : ChainHeader) × (ys : List Bytes) × (build_header
            random_mode
            (λ s. pos 0)
            called
            false
            []
            (1 ∷ [])
            1
            fresh_stack
            (init_header prefixes [] (pos 0))
          ≡ ok (step', s', pch'))
        × Holds s' ys
        × (map (λ (b : Bytes). b) ys ≡ codes "7" ∷ codes "6" ∷ [])
        × (pch'.trace_id.val ≡ some (codes "t")))
unfolding random_laws bytes_eq
outgoing-continues_example =
    outgoing-continues random_mode random_laws prefixes [] (pos 0) (codes "t") none none (codes "1")
      (codes "0") (codes "7") (codes "6") empty 0 (λ s. pos 0) called [] (1 ∷ []) 1 fresh_stack []
      (pos 0) refl (refl, (refl, (refl, (refl, (refl, tt))))) fresh_stack-Holds (omega arith)
      (λ e. cc) (λ e. cc)

-- An engine that knows what curl tells of a handle.
abbrev info : Arr
info =
    add_assoc (codes "http_code") (Zval.long (pos 200))
      (add_assoc (codes "url") (Zval.string (codes "http://b/")) empty)

abbrev curl_engine : Engine
curl_engine = record engine {
  call_function =
      λ name args. if bytes_eq name (codes "curl_getinfo") then some (array info) else none;
}

abbrev request : Request
request = record {
  tracer = record { psb = zipkin; mode = random_mode; php = curl_engine; pct = names };
  prefixes = prefixes;
  pch =
      header_with prefixes [] (pos 0) (codes "t") (some (codes "1")) (some (codes "0")) (codes "1")
        (codes "0");
  is_sampled = true;
  clock = λ tick. tick;
  http_header = pos 10023;
}

abbrev session : Session Bytes
session = record {
  curl_header_record = [];
  internal_call = false;
  span_stack = fresh_stack;
  span_layer = pos 0;
  component_id = pos 0;
  log = no_spans;
  origin = [];
  step = 1;
  ticks = 0;
}

molten_curl_exec-Adds_example :
    (s' : Session Bytes) × (ys : List Bytes) × (span : Arr) × (molten_curl_exec request
        (some (pos 4))
        Zval.null
        session
      ≡ ok s')
    × Holds s'.span_stack ys
    × (map (λ (b : Bytes). b) ys ≡ map (λ (b : Bytes). b) [])
    × (s'.log.spans ≡ some ([] ++ (span ∷ [])))
    × (zipkin_id span ≡ some (decimal_int 1))
    × (zipkin_parent span ≡ first_id (map (λ (b : Bytes). b) []))
unfolding random_laws bytes_eq find add_assoc has_name init_header
molten_curl_exec-Adds_example =
    molten_curl_exec-Adds request random_laws zipkin_id zipkin_parent 0 (pos 4) Zval.null session []
      [] zipkin_laws refl ((_, refl), ((_, refl), ((_, refl), ((_, refl), ((_, refl), tt)))))
      ((_, refl), (_, refl)) fresh_stack-Holds (omega arith) refl (omega arith)

molten_curl_exec-left_open_example :
    (s' : Session Bytes) × (molten_curl_exec request none Zval.null session ≡ ok s')
    × Opens random_mode s'.span_stack []
    × (s'.log ≡ session.log)
unfolding random_laws
molten_curl_exec-left_open_example =
    molten_curl_exec-left_open request random_laws 0 Zval.null session [] refl fresh_stack-Holds
      (omega arith)
