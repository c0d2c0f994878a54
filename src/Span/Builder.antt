-- ===== src/Span/Builder.antt =====
-- `mo_span_builder`: the two operations that the formats of spans supply, and what the record
-- functions do with them for a frame.
use molten.Common.{ℕ, none, some, Option, List, [], ◌∷◌, Bytes, ℤ, Result, ok, fault, ◌>>=◌}
use molten.Zval.{Arr}
use molten.Span.{ChainNames, AnType, BaType}
use molten.Span.Zipkin
use molten.Span.OpenTracing
use molten.SpanContext.Defs.{SpanMode, retrieve_span_id, retrieve_parent_span_id}
use molten.Stack.{Stack}

-- The operations, with the value of an annotation not NULL; its address may be.
pub record SpanBuilder : Type 0 where
  pub start_span : Bytes → Bytes → Bytes → Option Bytes → ℕ → ℕ → ChainNames → AnType → Arr
  pub span_add_ba : Bytes → Bytes → ℕ → Bytes → Option Bytes → ℤ → BaType → Arr → Arr

-- `mo_span_ctor` for "zipkin" and "opentracing".
abbrev pub zipkin : SpanBuilder
zipkin = record {
  start_span = Zipkin.start_span_builder;
  span_add_ba = λ key value timestamp service_name ipv4 port ba_type.
      Zipkin.span_add_ba_builder (some key) (some value) timestamp (some service_name) ipv4 port
        ba_type;
}

abbrev pub opentracing : SpanBuilder
opentracing = record {
  start_span = λ service_name trace_id span_id parent_id start_time finish_time pct an_type.
      OpenTracing.start_span_builder service_name trace_id span_id parent_id start_time finish_time
        an_type;
  span_add_ba = λ key value timestamp service_name ipv4 port ba_type.
      OpenTracing.span_add_ba_builder (some key) value timestamp (some service_name) ipv4 port
        ba_type;
}

-- `span_add_ba_ex` of a builder.
unfoldable pub span_add_ba_ex : SpanBuilder → Bytes → Bytes → ℕ → ChainNames → BaType → Arr → Arr
span_add_ba_ex psb key value timestamp pct ba_type span =
    psb.span_add_ba key value timestamp pct.service_name (some pct.ip) pct.port ba_type span

-- The builders copy the id of the span, which must not be NULL.
abbrev pub start_with :
    SpanBuilder → Bytes → ChainNames → ℕ → ℕ → AnType → Option Bytes → Option Bytes → Result Arr
start_with psb service_name pct entry_time exit_time an_type none parent_id = fault
start_with psb service_name pct entry_time exit_time an_type (some id) parent_id =
    ok (psb.start_span service_name pct.trace_id id parent_id entry_time exit_time pct an_type)

-- `start_span_ex` of a builder: the span of a frame, which holds the stack of span contexts and the
-- times of its entry and exit.
unfoldable pub start_span_ex :
    SpanBuilder
    → (m : SpanMode) → Bytes
    → ChainNames
    → Stack m.Context
    → ℕ
    → ℕ
    → AnType
    → Result Arr
start_span_ex psb m service_name pct span_stack entry_time exit_time an_type = do
  id ← retrieve_span_id m span_stack
  parent_id ← retrieve_parent_span_id m span_stack
  start_with psb service_name pct entry_time exit_time an_type id parent_id

-- An annotation of a span: key, value, time and kind, and the service and address if these are not the
-- chain's own.
pub data Annotation : Type 0 where
  annotation : Bytes → Bytes → ℕ → Bytes → Option Bytes → ℤ → BaType → Annotation
  annotation_ex : Bytes → Bytes → ℕ → BaType → Annotation

unfoldable pub annotate : SpanBuilder → ChainNames → List Annotation → Arr → Arr
annotate psb pct [] span = span
annotate psb pct (annotation key value time service_name ipv4 port ba_type ∷ more) span =
    annotate psb pct more (psb.span_add_ba key value time service_name ipv4 port ba_type span)
annotate psb pct (annotation_ex key value time ba_type ∷ more) span =
    annotate psb pct more (span_add_ba_ex psb key value time pct ba_type span)
