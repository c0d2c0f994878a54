-- ===== src/Tests/Tracing.antt =====
-- The tracing of calls at concrete inputs.
use molten.Common.{
  ℕ, ◌+◌, ◌≡◌, ◌%◌, ◌^◌, refl, Bool, true, false, Option, none, some, List, [], ◌∷◌, ◌++◌, Bytes,
  codes, suc, Result, fault, decimal, arith, pos, ok,
}
use molten.Stack.{Stack, init}
use molten.Stack.Contents.{Holds, init-Holds, push-Holds}
use molten.Ids.{decimal_int}
use molten.SpanContext.Random
use molten.SpanContext.Random.{push_span_context-next, push_span_context_with_id-Holds, random_mode}
use molten.SpanContext.Level
use molten.SpanContext.Level.{
  Context, opened, count_child, push_span_context-root, push_span_context-child,
}
use molten.Execute.{ZendFunction, Call, call, nil, cons, Module, Globals}
use molten.Execute.Trace.{RecordLaws}
use molten.Zval.{Arr}
use molten.Span.{ChainNames, an_server, ba_normal, ba_error}
use molten.Span.Builder.{
  zipkin, opentracing, start_span_ex, Annotation, annotation, annotation_ex, annotate,
}
use molten.Span.Links.{
  zipkin_id, zipkin_parent, opentracing_id, opentracing_parent, zipkin_span-links,
  opentracing_span-links,
}

abbrev empty_stack : Stack Bytes
empty_stack = init

empty_stack-Holds : Holds empty_stack []
empty_stack-Holds = init-Holds

push_span_context-next_example :
    (s' : Stack Bytes) × (Random.push_span_context 41 empty_stack ≡ ok ((41 + 1) % 2 ^ 32, s'))
    × Holds s' (decimal_int 41 ∷ [])
push_span_context-next_example =
    push_span_context-next 41 empty_stack [] empty_stack-Holds (omega arith)

abbrev pub level_stack : Stack Context
level_stack = init

pub level_stack-Holds : Holds level_stack []
level_stack-Holds = init-Holds

-- A stack with one span open.
abbrev pub open_stack : Stack Context
open_stack = (push-Holds level_stack (opened (codes "1")) [] level_stack-Holds).0

pub open_stack-Holds : Holds open_stack (opened (codes "1") ∷ [])
open_stack-Holds = (push-Holds level_stack (opened (codes "1")) [] level_stack-Holds).2

push_span_context-child_example :
    let parent = opened (codes "1") in
    (s' : Stack Context) × (Level.push_span_context 0 open_stack ≡ ok (0, s'))
    × Holds s' (
        opened (parent.span_id ++ codes "." ++ decimal parent.span_count) ∷ count_child parent ∷ [])
push_span_context-child_example =
    push_span_context-child 0 open_stack (opened (codes "1")) [] open_stack-Holds (omega arith)

-- A module that traces one function and records for a frame the id of its span; it counts the records.
abbrev the_id : Option Bytes → List Bytes
the_id none = []
the_id (some id) = id ∷ []

abbrev module_1 : Module ℕ Bytes ℕ
module_1 = record {
  mode = random_mode;
  pit = record { tags = codes "mysqli_connect" ∷ []; elements = (codes "mysqli_connect", 0) ∷ [] };
  clock = λ tick. tick;
  record_spans = λ e frame id parent n. ok (suc n, the_id id);
}

abbrev globals : Globals module_1
globals = record {
  level = 0;
  in_request = true;
  is_sampled = true;
  step = 1;
  ticks = 0;
  span_stack = empty_stack;
  log = record {
    sink_type = 1;
    output_type = 1;
    total_size = 0;
    alloc_size = 0;
    buf = [];
    spans = some [];
  };
  php = 0;
}

module_1-laws : RecordLaws module_1
module_1-laws = record {
  Fine = λ n. Unit;
  record-ok = λ e frame id parent n fine. (suc n, the_id id, refl, tt);
}

-- The function in the place of curl_exec, which is not called.
abbrev no_curl : Globals module_1 → Result (Bool × Globals module_1)
no_curl g = fault

abbrev function : Bytes → ZendFunction
function name = record { scope = none; function_name = some name; alias = none }

-- `main` calls `mysqli_connect`, which bails out.
abbrev program : Call
program =
    call (function (codes "main")) 0
      (cons (call (function (codes "mysqli_connect")) 1 nil true) nil) false

abbrev pub names : ChainNames
names = record {
  service_name = codes "shop";
  ip = codes "10.0.0.1";
  port = pos 80;
  trace_id = codes "t";
}

abbrev two_annotations : List Annotation
two_annotations =
    annotation (codes "sa") (codes "true") 5 (codes "redis") (some (codes "10.0.0.2")) (pos 6379)
      ba_normal
    ∷ annotation_ex (codes "error") (codes "timeout") 6 ba_error
    ∷ []

zipkin_span-links_example :
    (span : Arr) × (start_span_ex zipkin Level.level_mode
        (codes "php")
        names
        open_stack
        5
        6
        an_server
      ≡ ok span)
    × (zipkin_id (annotate zipkin names two_annotations span) ≡ some (codes "1"))
    × (zipkin_parent (annotate zipkin names two_annotations span) ≡ none)
zipkin_span-links_example =
    zipkin_span-links Level.level_mode (codes "php") names open_stack 5 6 an_server two_annotations
      (opened (codes "1")) [] open_stack-Holds

opentracing_span-links_example :
    (span : Arr) × (start_span_ex opentracing Level.level_mode
        (codes "php")
        names
        open_stack
        5
        6
        an_server
      ≡ ok span)
    × (opentracing_id (annotate opentracing names two_annotations span) ≡ some (codes "1"))
    × (opentracing_parent (annotate opentracing names two_annotations span) ≡ none)
opentracing_span-links_example =
    opentracing_span-links Level.level_mode (codes "php") names open_stack 5 6 an_server
      two_annotations (opened (codes "1")) [] open_stack-Holds
