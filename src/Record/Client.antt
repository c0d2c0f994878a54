-- ===== src/Record/Client.antt =====
-- The capture and record functions for the PHP libraries Guzzle and Elasticsearch, whose arguments may
-- be gone when the call returns: what is read of them at its entry is merged into the span.
use molten.Common.{
  Option, none, some, List, [], ◌∷◌, ◌++◌, Bytes, codes, c_string, if◌then◌else◌, Result, ok, fault,
  ◌>>=◌,
}
use molten.Zval.{Zval, Arr, empty}
use molten.Log.{add_span}
use molten.Span.{ba_normal, an_client}
use molten.Span.Builder.{Annotation, start_span_ex, span_add_ba_ex, annotate}
use molten.Record.Engine.{Frame, State, Tracer, Url}
use molten.Record.Args.{convert_args_to_string}
use molten.Record.Errors.{string_of, is_object, note, server_note, set_default_exception}
use molten.Record.Cache.{string_answer}

module _ (t : Tracer) where
  -- `span_add_ba_ex` on `frame->span_extra` at the entry of the call, of a value that may be NULL.
  abbrev pub extra_note : Frame t.mode.Context → Bytes → Option Bytes → Arr → Arr
  extra_note f key none extra = extra
  extra_note f key (some value) extra =
      span_add_ba_ex t.psb key value f.entry_time t.pct ba_normal extra

  -- `default_capture`, with `init_span_extra`
  unfoldable pub default_capture : Frame t.mode.Context → Result (Frame t.mode.Context)
  default_capture f = do
    value ← convert_args_to_string t.php f.function f.args
    ok (record f { span_extra = some (extra_note f (codes "db.statement") (some value) empty) })

  -- The method and the address are both taken from the second argument: the first is what a test of
  -- the number of arguments is made for.
  abbrev pub request_extra : Frame t.mode.Context → List Zval → Result Arr
  request_extra f [] = ok empty
  request_extra f (first ∷ []) = fault
  request_extra f (first ∷ second ∷ more) = ok (
      extra_note f (codes "http.uri") (string_of second)
        (extra_note f (codes "http.method") (string_of second) empty))

  -- `guzzle_request_capture`
  unfoldable pub guzzle_request_capture : Frame t.mode.Context → Result (Frame t.mode.Context)
  guzzle_request_capture f = do
    extra ← request_extra f f.args
    ok (record f { span_extra = some extra })

  -- `merge_span_extra`
  unfoldable pub merge_span_extra : Option Arr → Arr → Result Arr
  merge_span_extra none span = fault
  merge_span_extra (some extra) span = ok (t.php.merge_recursive span extra)

  -- A span that starts with what was captured.
  unfoldable pub record_merged :
      Result (List Annotation) → Frame t.mode.Context → State → Result State
  record_merged annotations f s = do
    span ←
        start_span_ex t.psb t.mode f.function t.pct f.span_stack f.entry_time f.exit_time an_client
    merged ← merge_span_extra f.span_extra span
    list ← annotations
    ok (record s { log = add_span s.log (annotate t.psb t.pct list merged) })

module _ (t : Tracer) (f : Frame t.mode.Context) where
  abbrev pub status_notes : Option Zval → List Annotation
  status_notes none = []
  status_notes (some code) = note t f (codes "http.status") (c_string (t.php.to_string code))

  unfoldable pub guzzle_notes : List Annotation
  guzzle_notes =
      (if is_object f.ret
        then status_notes (t.php.call_method f.ret (codes "getStatusCode"))
        else [])
      ++ note t f (codes "componet") (codes "GuzzleHttp\\Client")
      ++ set_default_exception t f

  -- `guzzle_request_record`
  unfoldable pub guzzle_request_record : State → Result State
  guzzle_request_record s = record_merged t (ok guzzle_notes) f s

  abbrev pub url_notes : Bytes → Option Url → List Annotation
  url_notes host none = note t f (codes "php.db.data_source") host
  url_notes host (some url) = server_note t f (codes "es") url.host url.port

  -- The address is freed whether it was parsed or not.
  abbrev pub host_notes : Option Bytes → Result (List Annotation)
  host_notes none = ok []
  host_notes (some host) = do
    _ ← t.php.url_free (t.php.url_parse host)
    ok (url_notes host (t.php.url_parse host))

  abbrev pub connection_notes : Option Zval → Result (List Annotation)
  connection_notes none = ok []
  connection_notes (some connection) =
      host_notes (string_answer (t.php.call_method connection (codes "getHost")))

  unfoldable pub transport_notes : Result (List Annotation)
  transport_notes =
      let transport = t.php.read_property f.object (codes "transport") in
      if is_object transport
      then connection_notes (t.php.call_method transport (codes "getLastConnection"))
      else ok []

  unfoldable pub es_notes : Result (List Annotation)
  es_notes = do
    server ← transport_notes
    ok (
        server
        ++ note t f (codes "db.type") (codes "elasticsearch")
        ++ note t f (codes "componet") (codes "Elasticsearch\\Client")
        ++ set_default_exception t f)

  -- `es_request_record`
  unfoldable pub es_request_record : State → Result State
  es_request_record s = record_merged t es_notes f s

  unfoldable pub default_es_notes : List Annotation
  default_es_notes =
      note t f (codes "componet") (codes "Elasticsearch\\Client")
      ++ note t f (codes "db.type") (codes "elasticsearch")
      ++ set_default_exception t f

  -- `default_es_record`
  unfoldable pub default_es_record : State → Result State
  default_es_record s = record_merged t (ok default_es_notes) f s
