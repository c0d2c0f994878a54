-- ===== src/Chain/Main.antt =====
-- The main span of a request: `mo_chain_dtor` for the formats Zipkin and OpenTracing.
use molten.Common.{
  ℕ, ◌≡◌, refl, ap, ◌∙◌, Bool, true, false, Option, none, some, List, [], ◌∷◌, ◌++◌, map, Bytes,
  codes, is_some, ◌||◌, ◌&&◌, length, ◌<◌, Result, ok, fault, ◌>>=◌,
}
use molten.Ids.{sprintf}
use molten.Control.{ServerVar, missing, string, other}
use molten.Stack.{Stack}
use molten.Stack.Contents.{
  Holds, top_element-Holds, sec_element-Holds, sec_element-one, pop-Holds, empty-Holds,
}
use molten.SpanContext.Defs.{SpanMode, pop_span_context, retrieve_span_id, retrieve_parent_span_id}
use molten.Chain.{ChainHeader}
use molten.Chain.Header.{as_list}
use molten.Zval.{Arr, Zval}
use molten.Span.{ChainNames, an_server, ba_normal, ba_path, ba_error}
use molten.Span.Links.{zipkin_id, zipkin_parent, zipkin_laws}
use molten.Span.Builder.{SpanBuilder, zipkin, start_with, Annotation, annotation_ex, annotate}
use molten.Span.Contract.{BuilderLaws, annotate-id, annotate-parent}
use molten.Log.{ChainLog, add_span, max_spans}
use molten.Log.Spans.{add_span-kept}

-- The fields of `mo_chain_t` that describe the request; `argv` is without the program's own name.
pub record Request : Type 0 where
  pub method : Option Bytes
  pub sapi : Bytes
  pub request_uri : Option Bytes
  pub script : Option Bytes
  pub error_list : List Zval
  pub is_cli : Bool
  pub argv : List Bytes
  pub execute_begin_time : ℕ

-- The name of the main span.
abbrev pub method_or : Option Bytes → Bytes → Bytes
method_or none sapi = sapi
method_or (some method) sapi = method

-- The choice between HTTP_HOST and SERVER_NAME; the text of HTTP_HOST is read whatever its type.
abbrev pub host_or : ServerVar → ServerVar → Result ServerVar
host_or missing name = ok name
host_or (string []) missing = ok (string [])
host_or (string []) (string s) = ok (string s)
host_or (string []) other = ok other
host_or (string (c ∷ s)) name = ok (string (c ∷ s))
host_or other name = fault

abbrev pub url_of : ServerVar → ServerVar → List Bytes
url_of (string host) (string uri) = (codes "http://" ++ host ++ uri) ∷ []
url_of (string host) missing = []
url_of (string host) other = []
url_of missing uri = []
url_of other uri = []

-- The address of the request, if it has one.
abbrev pub request_url : Option Bytes → (Bytes → ServerVar) → Result (List Bytes)
request_url none server = ok []
request_url (some uri) server = do
  host ← host_or (server (codes "HTTP_HOST")) (server (codes "SERVER_NAME"))
  ok (url_of host (server (codes "REQUEST_URI")))

-- The arguments of the command line, which are copied into 1024 bytes.
unfoldable pub join_args : List Bytes → Bytes
join_args [] = []
join_args (a ∷ more) = a ++ codes "," ++ join_args more

abbrev pub args_of : Bool → List Bytes → Result (List Bytes)
args_of false argv = ok []
args_of true [] = ok []
args_of true (a ∷ more) = do text ← sprintf 1024 (join_args (a ∷ more)); ok (text ∷ [])

unfoldable pub error_annotations : ℕ → List Zval → List Annotation
error_annotations time [] = []
error_annotations time (Zval.string s ∷ more) =
    annotation_ex (codes "error") s time ba_error ∷ error_annotations time more
error_annotations time (Zval.long n ∷ more) = error_annotations time more
error_annotations time (Zval.double n ∷ more) = error_annotations time more
error_annotations time (Zval.boolean b ∷ more) = error_annotations time more
error_annotations time (Zval.array a ∷ more) = error_annotations time more
error_annotations time (Zval.null ∷ more) = error_annotations time more
error_annotations time (Zval.object h ∷ more) = error_annotations time more
error_annotations time (Zval.resource r ∷ more) = error_annotations time more

abbrev pub texts : Bytes → ℕ → List Bytes → List Annotation
texts key time [] = []
texts key time (s ∷ more) = annotation_ex key s time ba_normal ∷ texts key time more

abbrev pub script_annotation : Option Bytes → ℕ → List Annotation
script_annotation none time = []
script_annotation (some script) time = annotation_ex (codes "path") script time ba_path ∷ []

-- What the main span says: its address, its script, the errors, and the arguments, in this order.
unfoldable pub main_annotations : Request → List Bytes → List Bytes → List Annotation
main_annotations pct url args =
    texts (codes "http.url") pct.execute_begin_time url
    ++ script_annotation pct.script pct.execute_begin_time
    ++ error_annotations pct.execute_begin_time pct.error_list
    ++ texts (codes "argv") pct.execute_begin_time args

-- Whether the request came with the id of a span or of its parent.
abbrev pub holds_id : ChainHeader → Bool
holds_id pch = is_some pch.span_id.val || is_some pch.parent_span_id.val

-- `mo_chain_header_dtor` frees the values of the header. An id that a span context shares is freed once
-- more when the context is popped.
abbrev pub header_dtor : Bool → Result (Unit {0})
header_dtor true = fault
header_dtor false = ok tt

-- `mo_chain_dtor` of a sampled request that ends at `now`: the log and the span stack behind it.
unfoldable pub chain_dtor :
    SpanBuilder
    → (m : SpanMode) → (Bytes → ServerVar)
    → ChainHeader
    → ChainNames
    → Request
    → ℕ
    → Stack m.Context
    → ChainLog Arr
    → Result (ChainLog Arr × Stack m.Context)
chain_dtor psb m server pch names pct now span_stack log = do
  id ← retrieve_span_id m span_stack
  parent_id ← retrieve_parent_span_id m span_stack
  span ←
      start_with psb (method_or pct.method pct.sapi) names pct.execute_begin_time now an_server id
        parent_id
  url ← request_url pct.request_uri server
  args ← args_of pct.is_cli pct.argv
  freed ← header_dtor (m.shares_ids && holds_id pch)
  s1 ← pop_span_context m span_stack
  s2 ← pop_span_context m s1
  ok (add_span log (annotate psb names (main_annotations pct url args) span), s2)

abbrev first : List Bytes → Option Bytes
first [] = none
first (id ∷ ids) = some id

abbrev second : List Bytes → Option Bytes
second [] = none
second (id ∷ ids) = first ids

module _ (psb : SpanBuilder) (id_of parent_of : Arr → Option Bytes)
    (laws : BuilderLaws psb id_of parent_of) (m : SpanMode) where
  -- What is on a stack with one or two spans open.
  ends :
      (s : Stack m.Context) (ys : List m.Context) (id : Bytes) (parent : Option Bytes)
      → Holds s ys
      → map m.span_id ys ≡ id ∷ as_list parent
      → (s1 s2 : Stack m.Context) × (retrieve_span_id m s ≡ ok (some id))
        × (retrieve_parent_span_id m s ≡ ok parent)
        × (pop_span_context m s ≡ ok s1)
        × (pop_span_context m s1 ≡ ok s2)
        × Holds s2 []
  unfolding retrieve_span_id retrieve_parent_span_id pop_span_context
  ends s [] id parent h e = cc
  ends s (c ∷ []) id none h e =
      let (s1, p, h1) = pop-Holds h in
      (
        s1,
        s1,
        rw (top_element-Holds h) (ap (λ l. ok (first l)) e),
        rw (sec_element-one h) refl,
        rw p refl,
        rw ((empty-Holds h1).2) refl,
        h1,
      )
  ends s (c ∷ []) id (some q) h e = cc
  ends s (c ∷ d ∷ []) id none h e = cc
  ends s (c ∷ d ∷ []) id (some q) h e =
      let (s1, p, h1) = pop-Holds h in
      let (s2, p2, h2) = pop-Holds h1 in
      (
        s1,
        s2,
        rw (top_element-Holds h) (ap (λ l. ok (first l)) e),
        rw (sec_element-Holds h) (ap (λ l. ok (second l)) e),
        rw p refl,
        rw p2 refl,
        h2,
      )
  ends s (c ∷ d ∷ f ∷ more) id none h e = cc
  ends s (c ∷ d ∷ f ∷ more) id (some q) h e = cc

  dtor-main :
      (server : Bytes → ServerVar) (pch : ChainHeader) (names : ChainNames) (pct : Request)
      (now : ℕ) (s : Stack m.Context) (log : ChainLog Arr) (ys : List m.Context) (id : Bytes)
      (parent : Option Bytes) (url args : List Bytes)
      → m.shares_ids ≡ false
      → Holds s ys
      → map m.span_id ys ≡ id ∷ as_list parent
      → request_url pct.request_uri server ≡ ok url
      → args_of pct.is_cli pct.argv ≡ ok args
      → (span : Arr) × (s' : Stack m.Context) × (chain_dtor psb m server pch names pct now s log
          ≡ ok (add_span log span, s'))
        × (id_of span ≡ some id)
        × (parent_of span ≡ parent)
        × Holds s' []
  unfolding chain_dtor
  dtor-main server pch names pct now s log ys id parent url args own h ids u a =
      let (s1, s2, e1, e2, p1, p2, h2) = ends s ys id parent h ids in
      let name = method_or pct.method pct.sapi in
      let begin = pct.execute_begin_time in
      let freed : header_dtor (m.shares_ids && holds_id pch) ≡ ok tt =
        ap (λ b. header_dtor (b && holds_id pch)) own in
      let span = psb.start_span name names.trace_id id parent begin now names an_server in
      let list = main_annotations pct url args in
      (
        annotate psb names list span,
        s2,
        rw (e1, e2, u, a, freed, p1, p2) refl,
        annotate-id psb id_of parent_of laws names list span
            ∙ laws.start-id name names.trace_id id parent begin now names an_server,
        annotate-parent psb id_of parent_of laws names list span
            ∙ laws.start-parent name names.trace_id id parent begin now names an_server,
        h2,
      )

pub main_span-zipkin :
    (m : SpanMode) (server : Bytes → ServerVar) (pch : ChainHeader) (names : ChainNames)
    (pct : Request) (now : ℕ) (s : Stack m.Context) (log : ChainLog Arr) (ys : List m.Context)
    (id : Bytes) (parent : Option Bytes) (url args : List Bytes)
    → m.shares_ids ≡ false
    → Holds s ys
    → map m.span_id ys ≡ id ∷ as_list parent
    → request_url pct.request_uri server ≡ ok url
    → args_of pct.is_cli pct.argv ≡ ok args
    → (span : Arr) × (s' : Stack m.Context) × (chain_dtor zipkin m server pch names pct now s log
        ≡ ok (add_span log span, s'))
      × (zipkin_id span ≡ some id)
      × (zipkin_parent span ≡ parent)
      × Holds s' []
main_span-zipkin = dtor-main zipkin zipkin_id zipkin_parent zipkin_laws

-- In a build without USE_LEVEL_ID, at the end of a request on whose stack the spans are open that it began
-- with, whatever errors, address, script and arguments it has: the log, if it keeps fewer than 300 spans,
-- keeps a Zipkin span behind them, which carries the id of the request's span and of its parent, and the
-- stack is empty. The conditions: the texts of the address and of the arguments can be made.
pub chain_dtor-zipkin :
    (m : SpanMode) (server : Bytes → ServerVar) (pch : ChainHeader) (names : ChainNames)
    (pct : Request) (now : ℕ) (s : Stack m.Context) (log : ChainLog Arr) (ys : List m.Context)
    (id : Bytes) (parent : Option Bytes) (url args : List Bytes) (kept : List Arr)
    → m.shares_ids ≡ false
    → Holds s ys
    → map m.span_id ys ≡ id ∷ as_list parent
    → request_url pct.request_uri server ≡ ok url
    → args_of pct.is_cli pct.argv ≡ ok args
    → log.spans ≡ some kept
    → length kept < max_spans
    → (span : Arr) × (s' : Stack m.Context) × (log' : ChainLog Arr) × (chain_dtor zipkin m server
          pch names pct now s log
        ≡ ok (log', s'))
      × (log'.spans ≡ some (kept ++ (span ∷ [])))
      × (zipkin_id span ≡ some id)
      × (zipkin_parent span ≡ parent)
      × Holds s' []
chain_dtor-zipkin m server pch names pct now s log ys id parent url args kept own h ids u a keeps
      room =
    let (span, s', e, span_id, span_parent, h') =
      main_span-zipkin m server pch names pct now s log ys id parent url args own h ids u a in
    (
      span,
      s',
      add_span log span,
      e,
      add_span-kept log span kept keeps room,
      span_id,
      span_parent,
      h',
    )
