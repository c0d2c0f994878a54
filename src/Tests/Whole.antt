-- ===== src/Tests/Whole.antt =====
-- Whole requests at concrete inputs.
use molten.Common.{
  ℕ, ◌≡◌, ◌≢◌, refl, Bool, true, false, Option, none, some, List, [], ◌∷◌, map, Bytes, codes, suc,
  arith, pos, ok, fault, Result, ◌++◌,
}
use molten.Control.{ServerVar, missing, other}
use molten.Stack.{Stack, init}
use molten.Stack.Contents.{Holds, init-Holds}
use molten.SpanContext.Random.{random_mode, random_laws, push_span_context_with_id-Holds}
use molten.Execute.{ZendFunction, Call, call, nil, cons, Module, Globals}
use molten.Execute.Trace.{RecordLaws}
use molten.Chain.{ChainKey, ChainHeader, Prefixes, init_header, build_header}
use molten.Chain.Header.{received, as_list, CameOrNew, CameOrDrawn, build_header-ids}
use molten.Chain.Main.{Request, chain_dtor, chain_dtor-zipkin}
use molten.Chain.Whole.{Surroundings}
use molten.Zval.{Arr, add_assoc, empty}
use molten.Zval
use molten.Span.{ChainNames}
use molten.Span.Builder.{zipkin}
use molten.Span.Links.{zipkin_id, zipkin_parent}
use molten.Log.{ChainLog}

-- No server variable is set.
abbrev bare : Bytes → ServerVar
bare key = missing

abbrev pub prefixes : Prefixes
prefixes = record { pass = codes "X-W-"; receive = codes "HTTP_X_W_" }

abbrev surroundings : Surroundings
surroundings = record {
  atoi = λ s. pos 0;
  server = bare;
  ip = codes "10.0.0.1";
  randoms = 1 ∷ 2 ∷ 3 ∷ [];
  prefixes = prefixes;
  old_ip = [];
  old_port = pos 0;
  service_name = codes "shop";
}

abbrev get_request : Request
get_request = record {
  method = some (codes "GET");
  sapi = codes "fpm";
  request_uri = some (codes "/");
  script = some (codes "/index.php");
  error_list = Zval.string (codes "E") ∷ [];
  is_cli = false;
  argv = [];
  execute_begin_time = 5;
}

abbrev span_of : Option Bytes → List Arr
span_of none = []
span_of (some id) = add_assoc (codes "id") (Zval.string id) empty ∷ []

-- The record function counts its calls.
abbrev tracer : Module ℕ Arr ℕ
tracer = record {
  mode = random_mode;
  pit = record {
    tags = codes "curl_multi_add_handle" ∷ [];
    elements = (codes "curl_multi_add_handle", 0) ∷ [];
  };
  clock = λ tick. tick;
  record_spans = λ e frame id parent n. ok (suc n, span_of id);
}

abbrev pub no_spans : ChainLog Arr
no_spans = record {
  sink_type = 1;
  output_type = 1;
  total_size = 0;
  alloc_size = 0;
  buf = [];
  spans = some [];
}

abbrev pub fresh_stack : Stack Bytes
fresh_stack = init

pub fresh_stack-Holds : Holds fresh_stack []
fresh_stack-Holds = init-Holds

abbrev before : Globals tracer
before = record {
  level = 0;
  in_request = true;
  is_sampled = true;
  step = 1;
  ticks = 0;
  span_stack = fresh_stack;
  log = no_spans;
  php = 0;
}

tracer-laws : RecordLaws tracer
tracer-laws = record {
  Fine = λ n. Unit;
  record-ok = λ e frame id parent n fine. (suc n, span_of id, refl, tt);
}

-- The function in the place of curl_exec, which is not called.
abbrev no_curl : Globals tracer → Result (Bool × Globals tracer)
no_curl g = fault

abbrev plain : Bytes → ZendFunction
plain name = record { scope = none; function_name = some name; alias = none }

abbrev page : Call
page =
    call (plain (codes "main")) 0
      (cons (call (plain (codes "curl_multi_add_handle")) 1 nil false) nil) true

missing≢other : ServerVar.missing ≢ other
missing≢other e = cc

build_header-ids_example :
    let pch0 = init_header prefixes [] (pos 0) in
    let came = λ (k : ChainKey). received (bare k.receive_key) in
    (step' : ℕ) × (s' : Stack Bytes) × (pch : ChainHeader) × (zs ys : List Bytes) × (id
      trace : Bytes)
    × (build_header random_mode
          (λ s. pos 0)
          bare
          false
          (codes "10.0.0.1")
          (1 ∷ 2 ∷ 3 ∷ [])
          1
          fresh_stack
          pch0
        ≡ ok (step', s', pch))
    × Holds s' ys
    × (map random_mode.span_id ys ≡ id ∷ as_list (came pch0.parent_span_id))
    × (map random_mode.span_id zs ≡ as_list (came pch0.parent_span_id))
    × CameOrNew random_mode random_laws (came pch0.span_id) 1 zs id
    × (pch.trace_id.val ≡ some trace)
    × CameOrDrawn (came pch0.trace_id) (1 ∷ 2 ∷ 3 ∷ []) trace
    × random_laws.Ready 0 step' ys
unfolding random_laws
build_header-ids_example =
    build_header-ids random_mode random_laws 0 (λ s. pos 0) bare (codes "10.0.0.1") (1 ∷ 2 ∷ 3 ∷ [])
      1 fresh_stack prefixes [] (pos 0) fresh_stack-Holds (omega arith) missing≢other missing≢other

-- A stack with the span `7` open.
abbrev seven : Stack Bytes
seven = (push_span_context_with_id-Holds fresh_stack (codes "7") [] fresh_stack-Holds).0

seven-Holds : Holds seven (codes "7" ∷ [])
seven-Holds = (push_span_context_with_id-Holds fresh_stack (codes "7") [] fresh_stack-Holds).2

abbrev shop : ChainNames
shop = record {
  service_name = codes "shop";
  ip = codes "10.0.0.1";
  port = pos 80;
  trace_id = codes "t";
}

chain_dtor-zipkin_example :
    (span : Arr) × (s' : Stack Bytes) × (log' : ChainLog Arr) × (chain_dtor zipkin random_mode bare
        (init_header prefixes [] (pos 0))
        shop
        get_request
        9
        seven
        no_spans
      ≡ ok (log', s'))
    × (log'.spans ≡ some ([] ++ (span ∷ [])))
    × (zipkin_id span ≡ some (codes "7"))
    × (zipkin_parent span ≡ none)
    × Holds s' []
chain_dtor-zipkin_example =
    chain_dtor-zipkin random_mode bare (init_header prefixes [] (pos 0)) shop get_request 9 seven
      no_spans (codes "7" ∷ []) (codes "7") none [] [] [] refl seven-Holds refl refl refl refl
      (omega arith)
