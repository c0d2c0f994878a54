-- ===== src/Span/Links.antt =====
-- The ids in the spans of a frame, in the formats Zipkin and OpenTracing of molten_span.c.
use molten.Common.{
  ℕ, ◌≡◌, refl, ap, ◌∙◌, false, Option, none, some, List, ◌∷◌, Bytes, bytes_eq, codes, ℤ, ok,
}
use molten.Zval.{
  Zval, long, double, boolean, string, array, null, object, resource, Arr, find, add_assoc,
  add_next_index, in_array, has_name, as_array,
}
use molten.Zval.Find.{find-in_array_other, find-add_assoc_other}
use molten.Span.{
  ChainNames, AnType, an_server, an_client, BaType, ba_normal, ba_sa, ba_sa_host, ba_sa_ip,
  ba_sa_dsn, ba_error, ba_path,
}
use molten.Span.Zipkin
use molten.Span.OpenTracing
use molten.Span.Builder.{zipkin, opentracing, start_span_ex, Annotation, annotate}
use molten.SpanContext.Defs.{SpanMode}
use molten.Stack.{Stack}
use molten.Stack.Contents.{Holds}
use molten.Span.Contract.{BuilderLaws, below_id, links}

-- The id that a span of either format carries, and its parent's.
abbrev pub as_string : Option Zval → Option Bytes
as_string (some (string s)) = some s
as_string none = none
as_string (some (long n)) = none
as_string (some (double n)) = none
as_string (some (boolean b)) = none
as_string (some (array a)) = none
as_string (some null) = none
as_string (some (object h)) = none
as_string (some (resource r)) = none

abbrev pub find_in : Bytes → Option Arr → Option Zval
find_in name none = none
find_in name (some a) = find name a

abbrev pub zipkin_id : Arr → Option Bytes
zipkin_id span = as_string (find (codes "id") span)

abbrev pub zipkin_parent : Arr → Option Bytes
zipkin_parent span = as_string (find (codes "parentId") span)

abbrev pub opentracing_id : Arr → Option Bytes
opentracing_id span =
    as_string (find_in (codes "spanID") (as_array (find (codes "spanContext") span)))

abbrev pub opentracing_parent : Arr → Option Bytes
opentracing_parent span =
    as_string (find_in (codes "parentSpanID") (as_array (find (codes "spanContext") span)))

zipkin-start :
    (service_name trace_id id : Bytes) (parent : Option Bytes) (start finish : ℕ) (pct : ChainNames)
    (an : AnType)
    → let span = zipkin.start_span service_name trace_id id parent start finish pct an in
      (zipkin_id span ≡ some id) × (zipkin_parent span ≡ parent)
unfolding Zipkin.start_span_builder Zipkin.start_span Zipkin.add_span_annotation_ex
    Zipkin.add_span_annotation find add_assoc in_array add_next_index has_name bytes_eq
zipkin-start service_name trace_id id none start finish pct an_server = (refl, refl)
zipkin-start service_name trace_id id none start finish pct an_client = (refl, refl)
zipkin-start service_name trace_id id (some p) start finish pct an_server = (refl, refl)
zipkin-start service_name trace_id id (some p) start finish pct an_client = (refl, refl)

-- An annotation of either format leaves what it does not write.
ensure_array-other :
    (o : Option Zval) (name other : Bytes) (span : Arr)
    → bytes_eq name other ≡ false
    → find other (Zipkin.ensure_array o name span) ≡ find other span
ensure_array-other none name other span ne = find-add_assoc_other name other _ span ne
ensure_array-other (some v) name other span ne = refl

zipkin_ba-find :
    (other key value : Bytes) (time : ℕ) (service_name : Bytes) (ipv4 : Option Bytes) (port : ℤ)
    (ba : BaType) (span : Arr)
    → bytes_eq (codes "binaryAnnotations") other ≡ false
    → find other (zipkin.span_add_ba key value time service_name ipv4 port ba span)
      ≡ find other span
unfolding Zipkin.span_add_ba_builder Zipkin.add_span_bannotation
zipkin_ba-find other key value time service_name none port ba span ne = refl
zipkin_ba-find other key value time service_name (some ipv4) port ba span ne =
    let name = codes "binaryAnnotations" in
    find-in_array_other name other _ (Zipkin.ensure_array (find name span) name span) ne
    ∙ ensure_array-other (find name span) name other span ne

pub zipkin_laws : BuilderLaws zipkin zipkin_id zipkin_parent
unfolding bytes_eq
zipkin_laws = record {
  start-id = λ sn t id p s f pct an. (zipkin-start sn t id p s f pct an).0;
  start-parent = λ sn t id p s f pct an. (zipkin-start sn t id p s f pct an).1;
  ba-id = λ k v t sn ip port ba span.
      ap as_string (zipkin_ba-find (codes "id") k v t sn ip port ba span refl);
  ba-parent = λ k v t sn ip port ba span.
      ap as_string (zipkin_ba-find (codes "parentId") k v t sn ip port ba span refl);
}

opentracing-start :
    (service_name trace_id id : Bytes) (parent : Option Bytes) (start finish : ℕ) (pct : ChainNames)
    (an : AnType)
    → let span = opentracing.start_span service_name trace_id id parent start finish pct an in
      (opentracing_id span ≡ some id) × (opentracing_parent span ≡ parent)
unfolding OpenTracing.start_span_builder OpenTracing.start_span OpenTracing.add_tag find add_assoc
    in_array has_name bytes_eq
opentracing-start service_name trace_id id none start finish pct an_server = (refl, refl)
opentracing-start service_name trace_id id none start finish pct an_client = (refl, refl)
opentracing-start service_name trace_id id (some p) start finish pct an_server = (refl, refl)
opentracing-start service_name trace_id id (some p) start finish pct an_client = (refl, refl)

abbrev context_of : Arr → Option Zval
context_of span = find (codes "spanContext") span

in_array-context :
    (name : Bytes) (f : Arr → Arr) (span : Arr)
    → bytes_eq name (codes "spanContext") ≡ false
    → context_of (in_array name f span) ≡ context_of span
in_array-context name f span ne = find-in_array_other name (codes "spanContext") f span ne

peer-context :
    (key service_name : Bytes) (ipv4 : Option Bytes) (port : ℤ) (span : Arr)
    → context_of (OpenTracing.add_peer key (some service_name) ipv4 port span) ≡ context_of span
unfolding OpenTracing.add_tag OpenTracing.add_tag_long bytes_eq
peer-context key service_name none port span =
    in_array-context (codes "tags") _ _ refl ∙ in_array-context (codes "tags") _ span refl
peer-context key service_name (some ipv4) port span =
    in_array-context (codes "tags") _ _ refl
    ∙ in_array-context (codes "tags") _ _ refl
    ∙ in_array-context (codes "tags") _ span refl

opentracing_ba-context :
    (key value : Bytes) (time : ℕ) (service_name : Bytes) (ipv4 : Option Bytes) (port : ℤ)
    (ba : BaType) (span : Arr)
    → context_of (opentracing.span_add_ba key value time service_name ipv4 port ba span)
      ≡ context_of span
unfolding OpenTracing.span_add_ba_builder OpenTracing.add_tag OpenTracing.add_tag_bool
    OpenTracing.add_log bytes_eq
opentracing_ba-context key value time sn ip port ba_normal span =
    in_array-context (codes "tags") _ span refl
opentracing_ba-context key value time sn ip port ba_sa span =
    peer-context (codes "peer.ipv4") sn ip port span
opentracing_ba-context key value time sn ip port ba_sa_host span =
    peer-context (codes "peer.hostname") sn ip port span
opentracing_ba-context key value time sn ip port ba_sa_ip span =
    peer-context (codes "peer.ipv4") sn ip port span
opentracing_ba-context key value time sn ip port ba_sa_dsn span =
    in_array-context (codes "tags") _ span refl
opentracing_ba-context key value time sn ip port ba_path span = refl
opentracing_ba-context key value time sn ip port ba_error span =
    in_array-context (codes "logs") _ _ refl ∙ in_array-context (codes "tags") _ span refl

opentracing_laws : BuilderLaws opentracing opentracing_id opentracing_parent
opentracing_laws = record {
  start-id = λ sn t id p s f pct an. (opentracing-start sn t id p s f pct an).0;
  start-parent = λ sn t id p s f pct an. (opentracing-start sn t id p s f pct an).1;
  ba-id = λ k v t sn ip port ba span.
      ap (λ c. as_string (find_in (codes "spanID") (as_array c)))
        (opentracing_ba-context k v t sn ip port ba span);
  ba-parent = λ k v t sn ip port ba span.
      ap (λ c. as_string (find_in (codes "parentSpanID") (as_array c)))
        (opentracing_ba-context k v t sn ip port ba span);
}

-- A Zipkin span of a frame is built when a span context is open, and carries the id of that context
-- and, as its parent, the id of the one below it, if there is one, whatever annotations are added.
pub zipkin_span-links :
    (m : SpanMode) (service_name : Bytes) (pct : ChainNames) (s : Stack m.Context) (entry exit : ℕ)
    (an : AnType) (list : List Annotation) (c : m.Context) (rest : List m.Context)
    → Holds s (c ∷ rest)
    → (span : Arr) × (start_span_ex zipkin m service_name pct s entry exit an ≡ ok span)
      × (zipkin_id (annotate zipkin pct list span) ≡ some (m.span_id c))
      × (zipkin_parent (annotate zipkin pct list span) ≡ below_id m rest)
zipkin_span-links = links zipkin zipkin_id zipkin_parent zipkin_laws

-- An OpenTracing span of a frame is built when a span context is open, and carries the id of that
-- context and, as its parent, the id of the one below it, if there is one, whatever annotations are
-- added.
pub opentracing_span-links :
    (m : SpanMode) (service_name : Bytes) (pct : ChainNames) (s : Stack m.Context) (entry exit : ℕ)
    (an : AnType) (list : List Annotation) (c : m.Context) (rest : List m.Context)
    → Holds s (c ∷ rest)
    → (span : Arr) × (start_span_ex opentracing m service_name pct s entry exit an ≡ ok span)
      × (opentracing_id (annotate opentracing pct list span) ≡ some (m.span_id c))
      × (opentracing_parent (annotate opentracing pct list span) ≡ below_id m rest)
opentracing_span-links = links opentracing opentracing_id opentracing_parent opentracing_laws
