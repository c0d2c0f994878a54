-- ===== src/Span/Contract.antt =====
-- What the record functions may rely on in any format of spans, and what it gives the span of a frame.
use molten.Common.{ℕ, ◌≡◌, refl, ◌∙◌, Option, none, some, List, [], ◌∷◌, Bytes, ℤ, ok}
use molten.Zval.{Arr}
use molten.Span.{ChainNames, AnType, BaType}
use molten.Span.Builder.{
  SpanBuilder, start_span_ex, span_add_ba_ex, Annotation, annotation, annotation_ex, annotate,
}
use molten.SpanContext.Defs.{SpanMode, retrieve_span_id, retrieve_parent_span_id}
use molten.Stack.{Stack}
use molten.Stack.Contents.{Holds, top_element-Holds, sec_element-Holds, sec_element-one}

-- What a format owes the record functions: a new span carries the two ids, and an annotation leaves
-- them.
pub record BuilderLaws (psb : SpanBuilder) (id_of parent_of : Arr → Option Bytes) : Type 0 where
  pub start-id :
      (service_name trace_id id : Bytes) (parent : Option Bytes) (start finish : ℕ)
      (pct : ChainNames) (an : AnType)
      → id_of (psb.start_span service_name trace_id id parent start finish pct an) ≡ some id
  pub start-parent :
      (service_name trace_id id : Bytes) (parent : Option Bytes) (start finish : ℕ)
      (pct : ChainNames) (an : AnType)
      → parent_of (psb.start_span service_name trace_id id parent start finish pct an) ≡ parent
  pub ba-id :
      (key value : Bytes) (time : ℕ) (service_name : Bytes) (ipv4 : Option Bytes) (port : ℤ)
      (ba : BaType) (span : Arr)
      → id_of (psb.span_add_ba key value time service_name ipv4 port ba span) ≡ id_of span
  pub ba-parent :
      (key value : Bytes) (time : ℕ) (service_name : Bytes) (ipv4 : Option Bytes) (port : ℤ)
      (ba : BaType) (span : Arr)
      → parent_of (psb.span_add_ba key value time service_name ipv4 port ba span) ≡ parent_of span

-- The id of the span below the open one, if there is one.
abbrev pub below_id : (m : SpanMode) → List m.Context → Option Bytes
below_id m [] = none
below_id m (c ∷ more) = some (m.span_id c)

module _ (psb : SpanBuilder) (id_of parent_of : Arr → Option Bytes)
    (laws : BuilderLaws psb id_of parent_of) where
  pub annotate-id :
      (pct : ChainNames) (list : List Annotation) (span : Arr)
      → id_of (annotate psb pct list span) ≡ id_of span
  unfolding annotate span_add_ba_ex
  annotate-id pct [] span = refl
  annotate-id pct (annotation k v t s i p b ∷ more) span =
      annotate-id pct more (psb.span_add_ba k v t s i p b span) ∙ laws.ba-id k v t s i p b span
  annotate-id pct (annotation_ex k v t b ∷ more) span =
      annotate-id pct more (span_add_ba_ex psb k v t pct b span)
      ∙ laws.ba-id k v t pct.service_name (some pct.ip) pct.port b span

  pub annotate-parent :
      (pct : ChainNames) (list : List Annotation) (span : Arr)
      → parent_of (annotate psb pct list span) ≡ parent_of span
  unfolding annotate span_add_ba_ex
  annotate-parent pct [] span = refl
  annotate-parent pct (annotation k v t s i p b ∷ more) span =
      annotate-parent pct more (psb.span_add_ba k v t s i p b span)
      ∙ laws.ba-parent k v t s i p b span
  annotate-parent pct (annotation_ex k v t b ∷ more) span =
      annotate-parent pct more (span_add_ba_ex psb k v t pct b span)
      ∙ laws.ba-parent k v t pct.service_name (some pct.ip) pct.port b span

  pub retrieve_parent-below :
      (m : SpanMode) (s : Stack m.Context) (c : m.Context) (rest : List m.Context)
      → Holds s (c ∷ rest)
      → retrieve_parent_span_id m s ≡ ok (below_id m rest)
  unfolding retrieve_parent_span_id
  retrieve_parent-below m s c [] h = rw (sec_element-one h) refl
  retrieve_parent-below m s c (d ∷ more) h = rw (sec_element-Holds h) refl

  pub links :
      (m : SpanMode) (service_name : Bytes) (pct : ChainNames) (s : Stack m.Context)
      (entry exit : ℕ) (an : AnType) (list : List Annotation) (c : m.Context)
      (rest : List m.Context)
      → Holds s (c ∷ rest)
      → (span : Arr) × (start_span_ex psb m service_name pct s entry exit an ≡ ok span)
        × (id_of (annotate psb pct list span) ≡ some (m.span_id c))
        × (parent_of (annotate psb pct list span) ≡ below_id m rest)
  unfolding start_span_ex retrieve_span_id
  links m service_name pct s entry exit an list c rest h =
      let parent = below_id m rest in
      let span = psb.start_span service_name pct.trace_id (m.span_id c) parent entry exit pct an in
      (
        span,
        rw (top_element-Holds h, retrieve_parent-below m s c rest h) refl,
        annotate-id pct list span
            ∙ laws.start-id service_name pct.trace_id (m.span_id c) parent entry exit pct an,
        annotate-parent pct list span
            ∙ laws.start-parent service_name pct.trace_id (m.span_id c) parent entry exit pct an,
      )
