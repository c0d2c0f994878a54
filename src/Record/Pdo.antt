-- ===== src/Record/Pdo.antt =====
-- The record functions for PDO and PDOStatement.
use molten.Common.{
  Bool, true, false, ◌&&◌, Option, none, some, List, [], ◌∷◌, ◌++◌, Bytes, codes, has_prefix,
  length, take, ltb, ltb_ℤ, is_some, if◌then◌else◌, ℤ, pos, atoi, Result, ok, fault, ◌>>=◌,
}
use molten.Zval.{Zval, Arr, as_array, find_index}
use molten.Span.{ba_sa_dsn}
use molten.Span.Builder.{Annotation, annotation_ex}
use molten.Record.Engine.{Engine, Frame, State, Tracer, PdoDbh, PdoStmt, layered, record_span}
use molten.Record.Errors.{
  string_of, is_false, note, note?, error_note?, server_note, exception_notes,
}

-- `DATABASE_LAYER`, `MYSQL_CN`
abbrev pub database_layer : ℤ
database_layer = pos 1

abbrev pub mysql_cn : ℤ
mysql_cn = pos 5

abbrev pub string_in : Option Zval → Option Bytes
string_in none = none
string_in (some v) = string_of v

abbrev pub part_in : Option Arr → Option Bytes
part_in none = none
part_in (some parts) = string_in (find_index 1 parts)

-- The number of matches and the parts of the subject.
abbrev pub first_part : ℤ × Zval → Option Bytes
first_part (count, subpats) =
    if ltb_ℤ (pos 0) count then part_in (as_array (some subpats)) else none

-- `pcre_common_match`, by what the pattern is compiled to.
abbrev pub match_by : Option (Bytes → ℤ × Zval) → Bytes → Option Bytes
match_by none subject = none
match_by (some cache) subject = first_part (cache subject)

unfoldable pub pcre_common_match : Engine → Bytes → Bytes → Option Bytes
pcre_common_match php pattern subject = match_by (php.regex pattern) subject

module _ (t : Tracer) (f : Frame t.mode.Context) where
  -- The part of `analyze_data_source` for host and port, and the one for what is missing.
  abbrev pub address_notes : Bytes → Option Bytes → Option Bytes → List Annotation
  address_notes db_type (some host) (some port) = server_note t f db_type (some host) (atoi port)
  address_notes db_type (some host) none = []
  address_notes db_type none port = []

  abbrev pub source_notes : Bool → Bytes → List Annotation
  source_notes true data_source = []
  source_notes false data_source =
      annotation_ex (codes "php.db.data_source") data_source f.exit_time ba_sa_dsn ∷ []

  -- `analyze_data_source`
  unfoldable pub analyze_data_source : Bytes → Bytes → List Annotation
  analyze_data_source db_type data_source =
      let dbname = pcre_common_match t.php (codes "(dbname=([^;\\s]+))") data_source in
      let host = pcre_common_match t.php (codes "(host=([^;\\s]+))") data_source in
      let port = pcre_common_match t.php (codes "(port=([^;\\s]+))") data_source in
      note? t f (codes "db.instance") dbname
      ++ address_notes db_type host port
      ++ source_notes (is_some dbname && is_some host && is_some port) data_source

  -- `memcpy` of the name of the driver to 64 bytes that are 0, where it is read as a text.
  abbrev pub copy_db_type : Bytes → Result Bytes
  copy_db_type name = if ltb (length name) 64 then ok name else fault

  -- `dbh->data_source != NULL && db_type[0] != '\0'`
  abbrev pub data_source_notes : Bytes → Option Bytes → List Annotation
  data_source_notes db_type none = []
  data_source_notes [] (some data_source) = []
  data_source_notes (c ∷ db_type) (some data_source) = analyze_data_source (c ∷ db_type) data_source

  abbrev pub driver_notes : Option Bytes → Option Bytes → Result (List Annotation)
  driver_notes none data_source = ok []
  driver_notes (some name) data_source = do
    db_type ← copy_db_type name
    ok (note t f (codes "db.type") db_type ++ data_source_notes db_type data_source)

  -- What `pdo_record` tells of the connection.
  abbrev pub dbh_notes : Option PdoDbh → Result (List Annotation)
  dbh_notes none = ok []
  dbh_notes (some dbh) = driver_notes dbh.driver_name dbh.data_source

  -- What must not be NULL.
  abbrev pub checked : Option Bytes → Result Bytes
  checked none = fault
  checked (some s) = ok s

  -- `Z_STRVAL_P` of the message, which must be a string.
  abbrev pub info_text : Option Zval → Bytes → Result Bytes
  info_text none unknown = ok unknown
  info_text (some v) unknown = checked (string_of v)

  abbrev pub info_message : Option Arr → Bytes → Result (Option Bytes)
  info_message none unknown = ok (some unknown)
  info_message (some info) unknown = do s ← info_text (find_index 2 info) unknown; ok (some s)

  -- The text of an error by what `errorInfo` answers; `none` if the call fails.
  abbrev pub error_message : Option Zval → Bytes → Result (Option Bytes)
  error_message none unknown = ok none
  error_message (some v) unknown = info_message (as_array (some v)) unknown

  unfoldable pub error_info : Bytes → Result (Option Bytes)
  error_info unknown =
      if is_false f.ret
      then error_message (t.php.call_method f.object (codes "errorInfo")) unknown
      else ok none

  -- The statement of `pdo_record`: its first argument, unless the method is `commit`.
  abbrev pub statement_notes : Bool → List Zval → List Annotation
  statement_notes commit [] = []
  statement_notes true (v ∷ more) = []
  statement_notes false (v ∷ more) = note? t f (codes "db.statement") (string_of v)

  unfoldable pub pdo_notes : Result (List Annotation)
  pdo_notes = do
    about ← dbh_notes (t.php.pdo_dbh f.object)
    error ← error_info (codes "unknown")
    ok (
        statement_notes (has_prefix (codes "commit") f.function) f.args
        ++ about
        ++ note? t f (codes "error") error
        ++ exception_notes t f (codes "PDOException") t.php.exception)

  -- `pdo_record`
  unfoldable pub pdo_record : State → Result State
  pdo_record s =
      record_span t (take 63 (codes "PDO::" ++ f.function)) pdo_notes f
        (layered database_layer mysql_cn s)

  -- Of a statement's connection the data source is handed on unchecked; a NULL is followed.
  abbrev pub stmt_driver_notes : Option Bytes → Option Bytes → Result (List Annotation)
  stmt_driver_notes none data_source = ok []
  stmt_driver_notes (some name) data_source = do
    db_type ← copy_db_type name
    source ← checked data_source
    ok (note t f (codes "db.type") db_type ++ analyze_data_source db_type source)

  abbrev pub stmt_dbh_notes : Option PdoDbh → Result (List Annotation)
  stmt_dbh_notes none = ok []
  stmt_dbh_notes (some dbh) = stmt_driver_notes dbh.driver_name dbh.data_source

  abbrev pub stmt_notes : Option PdoStmt → Result (List Annotation)
  stmt_notes none = ok []
  stmt_notes (some stmt) = do
    about ← stmt_dbh_notes stmt.dbh
    ok (note t f (codes "db.statement") stmt.query_string ++ about)

  unfoldable pub pdo_statement_notes : Result (List Annotation)
  pdo_statement_notes = do
    about ← stmt_notes (t.php.pdo_stmt f.object)
    error ← error_info (codes "unkown")
    ok (about ++ error_note? t f error)

  -- `pdo_statement_record`
  unfoldable pub pdo_statement_record : State → Result State
  pdo_statement_record s =
      record_span t (codes "PDOStatement::execute") pdo_statement_notes f
        (layered database_layer mysql_cn s)
