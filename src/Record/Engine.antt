-- ===== src/Record/Engine.antt =====
-- What the record functions of molten_intercept.c ask of PHP and of its extensions, the frame that they
-- are called with, and what they change.
use molten.Common.{ℕ, zero, suc, Bool, Option, List, [], ◌∷◌, Bytes, ℤ, Result, ok, fault, ◌>>=◌}
use molten.Zval.{Zval, Arr}
use molten.Log.{ChainLog, add_span}
use molten.Span.{ChainNames, an_client}
use molten.Span.Builder.{SpanBuilder, start_span_ex, Annotation, annotate}
use molten.SpanContext.Defs.{SpanMode}
use molten.Stack.{Stack}

-- `pdo_dbh_t`: the name of its driver, and its data source. `none` is NULL; without a driver there is
-- no name, and a driver has one.
pub record PdoDbh : Type 0 where
  pub driver_name : Option Bytes
  pub data_source : Option Bytes

-- `pdo_stmt_t`, with the text of the statement and the connection.
pub record PdoStmt : Type 0 where
  pub query_string : Bytes
  pub dbh : Option PdoDbh

-- The data of a connection of mysqlnd: `connect_or_select_db` may be NULL.
pub record Connection : Type 0 where
  pub host : Bytes
  pub port : ℤ
  pub db : Option Bytes

-- `php_url`: what is read of it.
pub record Url : Type 0 where
  pub host : Option Bytes
  pub port : ℤ

-- The engine, as the record of one call meets it: what each function or method answers if it is called
-- (`none` is FAILURE), the conversions, the classes, the exception that is under way, regular
-- expressions (`none` does not compile; else the number of matches and the parts of a subject), and
-- what the extensions keep behind an object.
pub record Engine : Type 0 where
  pub call_method : Zval → Bytes → Option Zval
  pub call_function : Bytes → List Zval → Option Zval
  pub to_string : Zval → Bytes
  pub to_long : Zval → ℤ
  pub print_double : ℕ → Bytes
  pub class_of : ℕ → Bytes
  pub resource_type : ℤ → Option Bytes
  pub has_class : Bytes → Bool
  pub exception : Option Zval
  pub instance_of : Zval → Bytes → Bool
  pub read_property : Zval → Bytes → Zval
  pub regex : Bytes → Option (Bytes → ℤ × Zval)
  pub pdo_dbh : Zval → Option PdoDbh
  pub pdo_stmt : Zval → Option PdoStmt
  pub mysql : Zval → Option Connection
  pub mysql_stmt : Zval → Option Connection
  pub debug_info : Zval → Arr
  pub url_parse : Bytes → Option Url
  pub url_free : Option Url → Result (Unit {0})
  pub merge_recursive : Arr → Arr → Arr

-- `mo_frame_t` as a record function reads it. A NULL object or result is `null`. `span_extra` is NULL
-- where nothing was captured.
pub record Frame (C : Type 0) : Type 0 where
  pub function : Bytes
  pub args : List Zval
  pub object : Zval
  pub ret : Zval
  pub entry_time : ℕ
  pub exit_time : ℕ
  pub span_extra : Option Arr
  pub span_stack : Stack C

-- What the record functions change: fields of `mo_chain_t`, the cache of `mo_interceptor_t`, and the log.
pub record State : Type 0 where
  pub span_layer : ℤ
  pub component_id : ℤ
  pub span_info_cache : List (ℤ × Zval)
  pub log : ChainLog Arr

-- What `mo_interceptor_t` points to: the builder of spans and the chain; and the build's kind of
-- span contexts.
pub record Tracer : Type 1 where
  pub psb : SpanBuilder
  pub mode : SpanMode
  pub php : Engine
  pub pct : ChainNames

-- `frame->ori_args[n]`, which must be there.
unfoldable pub arg : ℕ → List Zval → Result Zval
arg n [] = fault
arg zero (v ∷ more) = ok v
arg (suc n) (v ∷ more) = arg n more

-- The two fields that tell SkyWalking what a span is about.
abbrev pub layered : ℤ → ℤ → State → State
layered layer component s = record s { span_layer = layer; component_id = component }

module _ (t : Tracer) where
  -- The shape that most record functions have: a span of the frame is started, annotations are put on
  -- it in order, and it goes to the log.
  unfoldable pub record_span :
      Bytes → Result (List Annotation) → Frame t.mode.Context → State → Result State
  record_span service_name annotations f s = do
    span ←
        start_span_ex t.psb t.mode service_name t.pct f.span_stack f.entry_time f.exit_time
          an_client
    list ← annotations
    ok (record s { log = add_span s.log (annotate t.psb t.pct list span) })
