-- ===== src/Record/Mongo.antt =====
-- The record functions for MongoDB.
use molten.Common.{
  Option, none, some, List, [], ◌∷◌, ◌++◌, Bytes, codes, length, ltb, if◌then◌else◌, ℤ, pos, Result,
  ok, ◌>>=◌,
}
use molten.Zval.{Zval, find}
use molten.Span.{ba_sa_dsn}
use molten.Span.Builder.{Annotation, annotation_ex}
use molten.Record.Engine.{Frame, State, Tracer, layered, record_span}
use molten.Record.Args.{convert_args_to_string}
use molten.Record.Errors.{note, server_note, set_default_exception}
use molten.Record.Cache.{cache_layer, string_answer, long_answer}

-- `MONGODB_CN`
abbrev pub mongodb_cn : ℤ
mongodb_cn = pos 9

module _ (t : Tracer) (f : Frame t.mode.Context) where
  -- The part that both record functions begin and end with.
  abbrev pub statement_notes : List Annotation → Result (List Annotation)
  statement_notes source = do
    value ← convert_args_to_string t.php f.function f.args
    ok (
        note t f (codes "db.statement") value
        ++ note t f (codes "db.type") (codes "mongodb")
        ++ source
        ++ set_default_exception t f)

  abbrev pub uri_notes : Option Bytes → List Annotation
  uri_notes none = []
  uri_notes (some uri) = annotation_ex (codes "php.db.source") uri f.exit_time ba_sa_dsn ∷ []

  abbrev pub host_port_notes : Option Bytes → Option ℤ → List Annotation
  host_port_notes (some host) (some port) = server_note t f (codes "mongodb") (some host) port
  host_port_notes (some host) none = []
  host_port_notes none port = []

  -- What the debug information of the object has under a name.
  abbrev pub debug_value : Bytes → Option Zval
  debug_value name = find name (t.php.debug_info f.object)

  unfoldable pub mongodb_notes : Result (List Annotation)
  mongodb_notes = statement_notes (uri_notes (string_answer (debug_value (codes "uri"))))

  unfoldable pub mongodb_server_notes : Result (List Annotation)
  mongodb_server_notes = statement_notes (
      host_port_notes (string_answer (debug_value (codes "host")))
        (long_answer (debug_value (codes "port"))))

  -- `mongodb_record`
  unfoldable pub mongodb_record : State → Result State
  mongodb_record s =
      if ltb (length f.args) 1
      then ok s
      else record_span t f.function mongodb_notes f (layered cache_layer mongodb_cn s)

  -- `mongodb_server_record`
  unfoldable pub mongodb_server_record : State → Result State
  mongodb_server_record s =
      if ltb (length f.args) 1
      then ok s
      else record_span t f.function mongodb_server_notes f (layered cache_layer mongodb_cn s)
