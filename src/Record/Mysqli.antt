-- ===== src/Record/Mysqli.antt =====
-- The record functions for mysqli and mysqli_stmt.
use molten.Common.{
  ℕ, ◌+◌, Bool, true, false, Option, none, some, List, [], ◌∷◌, ◌++◌, Bytes, codes, bytes_eq, drop,
  length, ltb, if◌then◌else◌, ltb_ℤ, ℤ, pos, atoi, Result, ok, ◌>>=◌,
}
use molten.Zval.{Zval}
use molten.Span.Builder.{Annotation}
use molten.Record.Engine.{Frame, State, Tracer, Connection, arg, layered, record_span}
use molten.Record.Errors.{
  string_of, message_of, long_of, is_object, is_resource, note, note?, error_note?, server_note,
}
use molten.Record.Pdo.{database_layer, mysql_cn}
use molten.Record.Cache.{string_answer, long_answer, message_answer}

abbrev pub above_zero : Option ℤ → Bool
above_zero none = false
above_zero (some n) = ltb_ℤ (pos 0) n

module _ (t : Tracer) (f : Frame t.mode.Context) where
  -- `build_com_record(pit, frame, 0)`, what is put on the span, and `mo_chain_add_span`.
  unfoldable pub common_record : Result (List Annotation) → State → Result State
  common_record notes s = record_span t f.function notes f s

  -- The span and the two fields that a record function of mysqli sets first.
  abbrev pub mysql_layered : State → State
  mysql_layered s = layered database_layer mysql_cn s

  -- The server at a port that is a number or a text; no other port is taken.
  abbrev pub port_notes : Bytes → Option ℤ → Option Bytes → List Annotation
  port_notes host (some n) s = server_note t f (codes "mysql") (some host) n
  port_notes host none (some s) = server_note t f (codes "mysql") (some host) (atoi s)
  port_notes host none none = []

  -- The server by the argument for the host and the arguments from the one for the port on.
  abbrev pub host_notes : Option Bytes → List Zval → List Annotation
  host_notes none ports = []
  host_notes (some host) [] = server_note t f (codes "mysql") (some host) (pos 3306)
  host_notes (some host) (port ∷ more) = port_notes host (long_of port) (string_of port)

  abbrev pub dbname_notes : List Zval → List Annotation
  dbname_notes [] = []
  dbname_notes (dbname ∷ more) = note? t f (codes "db.instance") (string_of dbname)

  -- The arguments from the n-th on.
  abbrev pub args_from : ℕ → List Zval
  args_from n = drop n f.args

  -- What `mysqli_connect_errno` and `mysqli_connect_error` tell.
  unfoldable pub connect_error_notes : List Annotation
  connect_error_notes =
      if above_zero (long_answer (t.php.call_function (codes "mysqli_connect_errno") []))
      then error_note? t f (string_answer (t.php.call_function (codes "mysqli_connect_error") []))
      else []

  unfoldable pub connect_notes : Result (List Annotation)
  connect_notes = do
    host ← arg 0 f.args
    ok (
        host_notes (string_of host) (args_from 4)
        ++ dbname_notes (args_from 3)
        ++ connect_error_notes)

  -- `mysqli_connect_common_record`
  unfoldable pub mysqli_connect_common_record : State → Result State
  mysqli_connect_common_record s =
      if ltb (length f.args) 1 then ok s else common_record connect_notes s

  -- `mysqli_connect_record` and `mysqli_construct_record`
  unfoldable pub mysqli_connect_record : State → Result State
  mysqli_connect_record s = mysqli_connect_common_record (mysql_layered s)

  unfoldable pub real_connect_notes : Result (List Annotation)
  real_connect_notes = do
    host ← arg 1 f.args
    ok (
        host_notes (string_of host) (args_from 5)
        ++ dbname_notes (args_from 4)
        ++ connect_error_notes)

  -- `mysqli_real_connect_record`
  unfoldable pub mysqli_real_connect_record : State → Result State
  mysqli_real_connect_record s =
      if ltb (length f.args) 2 then ok s else common_record real_connect_notes (mysql_layered s)

  -- The error that a procedural function tells of its first argument, if that is a resource.
  abbrev pub function_error : Bytes → Zval → Option Bytes
  function_error error_function link =
      if is_resource link
      then message_answer (t.php.call_function error_function (link ∷ []))
      else none

  -- The property `error` of the object, if the class is there.
  abbrev pub property_error : Bytes → Option Bytes
  property_error class_entry_name =
      if t.php.has_class class_entry_name
      then message_of (t.php.read_property f.object (codes "error"))
      else none

  -- `mysqli_common_error`
  abbrev pub mysqli_common_error : Bool → Bytes → Bytes → Result (List Annotation)
  mysqli_common_error true error_function class_entry_name = do
    link ← arg 0 f.args
    ok (error_note? t f (function_error error_function link))
  mysqli_common_error false error_function class_entry_name =
      ok (error_note? t f (property_error class_entry_name))

  -- `mysqli_error` and `mysqli_stmt_error`
  unfoldable pub mysqli_error : Bool → Result (List Annotation)
  mysqli_error procedural = mysqli_common_error procedural (codes "mysqli_error") (codes "mysqli")

  unfoldable pub mysqli_stmt_error : Bool → Result (List Annotation)
  mysqli_stmt_error procedural =
      mysqli_common_error procedural (codes "mysqli_stmt_error") (codes "mysqli_stmt")

  -- The link or statement: the first argument of a function, the object of a method.
  abbrev pub link_of : Bool → Result Zval
  link_of true = arg 0 f.args
  link_of false = ok f.object

  abbrev pub connection_notes : Option Connection → List Annotation
  connection_notes none = []
  connection_notes (some c) =
      server_note t f (codes "mysql") (some c.host) c.port ++ note? t f (codes "db.instance") c.db

  -- `db_query_get_sa` and `mysqli_stmt_get_sa`
  unfoldable pub db_query_get_sa : Bool → Result (List Annotation)
  db_query_get_sa procedural = do
    mysql_link ← link_of procedural
    ok (if is_object mysql_link then connection_notes (t.php.mysql mysql_link) else [])

  unfoldable pub mysqli_stmt_get_sa : Bool → Result (List Annotation)
  mysqli_stmt_get_sa procedural = do
    mysql_stmt ← link_of procedural
    ok (if is_object mysql_stmt then connection_notes (t.php.mysql_stmt mysql_stmt) else [])

  -- The place of the statement among the arguments, one less than how many there must be.
  abbrev pub sql_place : Bool → ℕ
  sql_place true = 1
  sql_place false = 0

  -- A call with a statement: its text, the kind of database, the server, and the error.
  abbrev pub statement_notes :
      Bool → Result (List Annotation) → Result (List Annotation) → Result (List Annotation)
  statement_notes procedural get_sa get_error = do
    sql ← arg (sql_place procedural) f.args
    sa ← get_sa
    error ← get_error
    ok (
        note? t f (codes "db.statement") (string_of sql)
        ++ note t f (codes "db.type") (codes "mysql")
        ++ sa
        ++ error)

  -- `db_query_record`
  unfoldable pub db_query_record : Bool → State → Result State
  db_query_record procedural s =
      if ltb (length f.args) (sql_place procedural + 1)
      then ok s
      else common_record
          (statement_notes procedural (db_query_get_sa procedural) (mysqli_error procedural)) s

  -- `mysqli_query_record` and `mysqli_oo_query_record`
  unfoldable pub mysqli_query_record : State → Result State
  mysqli_query_record s = db_query_record true (mysql_layered s)

  unfoldable pub mysqli_oo_query_record : State → Result State
  mysqli_oo_query_record s = db_query_record false (mysql_layered s)

  -- `mysqli_common_record`
  unfoldable pub mysqli_common_record : State → Result State
  mysqli_common_record s =
      common_record (ok (note t f (codes "db.type") (codes "mysql"))) (mysql_layered s)

  -- `mysqli_stmt_prepare_common_record`
  unfoldable pub mysqli_stmt_prepare_common_record : Bool → State → Result State
  mysqli_stmt_prepare_common_record procedural s =
      if ltb (length f.args) (sql_place procedural + 1)
      then ok s
      else common_record
          (statement_notes procedural (mysqli_stmt_get_sa procedural)
            (mysqli_stmt_error procedural))
          s

  unfoldable pub stmt_exe_notes : Bool → Result (List Annotation)
  stmt_exe_notes procedural = do
    sa ← mysqli_stmt_get_sa procedural
    error ← mysqli_stmt_error procedural
    ok (note t f (codes "db.type") (codes "mysql") ++ sa ++ error)

  -- `mysqli_stmt_exe_common_record`
  unfoldable pub mysqli_stmt_exe_common_record : Bool → State → Result State
  mysqli_stmt_exe_common_record procedural s = common_record (stmt_exe_notes procedural) s

  -- `mysqli_stmt_exe_oo_record`
  unfoldable pub mysqli_stmt_exe_oo_record : State → Result State
  mysqli_stmt_exe_oo_record s =
      if bytes_eq f.function (codes "prepare")
      then mysqli_stmt_prepare_common_record false (mysql_layered s)
      else mysqli_stmt_exe_common_record false (mysql_layered s)

  -- `mysqli_stmt_prepare_procedural_record` and `mysqli_stmt_exe_procedural_record`
  unfoldable pub mysqli_stmt_prepare_procedural_record : State → Result State
  mysqli_stmt_prepare_procedural_record s = mysqli_stmt_prepare_common_record true (mysql_layered s)

  unfoldable pub mysqli_stmt_exe_procedural_record : State → Result State
  mysqli_stmt_exe_procedural_record s = mysqli_stmt_exe_common_record true (mysql_layered s)
