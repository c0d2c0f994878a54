-- ===== src/Record/Cache.antt =====
-- The record functions for Redis and Memcached.
use molten.Common.{
  Bool, true, false, Option, none, some, List, [], ◌∷◌, ◌++◌, Bytes, codes, c_string, if◌then◌else◌,
  ltb, ℕ, ◌+◌, length, get_elem?, ℤ, pos, atoi, to_int32, Result, ok, fault, ◌>>=◌,
}
use molten.Zval.{Zval, Arr, as_array, values}
use molten.Span.{ba_sa}
use molten.Span.Builder.{Annotation, annotation}
use molten.Record.Engine.{Frame, State, Tracer, arg, layered, record_span}
use molten.Record.Args.{convert_args_to_string}
use molten.Record.Errors.{
  string_of, message_of, long_of, is_false, note, error_note, server_note, exception_notes,
}

-- `CACHE_LAYER`, `JEDIS_CN`, `MEMCACHED_CN`
abbrev pub cache_layer : ℤ
cache_layer = pos 5

abbrev pub jedis_cn : ℤ
jedis_cn = pos 7

abbrev pub memcached_cn : ℤ
memcached_cn = pos 20

-- What a method answered, if it is a text or a number.
abbrev pub string_answer : Option Zval → Option Bytes
string_answer none = none
string_answer (some v) = string_of v

abbrev pub message_answer : Option Zval → Option Bytes
message_answer none = none
message_answer (some v) = message_of v

abbrev pub long_answer : Option Zval → Option ℤ
long_answer none = none
long_answer (some v) = long_of v

abbrev pub or_unknown : Option Bytes → Bytes
or_unknown none = codes "unkown"
or_unknown (some s) = s

abbrev pub or_zero : Option ℤ → ℤ
or_zero none = pos 0
or_zero (some n) = n

module _ (t : Tracer) (f : Frame t.mode.Context) where
  -- What `getLastError` tells, with the server again.
  abbrev pub last_error_notes : Option Bytes → Bytes → ℤ → List Annotation
  last_error_notes none host port = []
  last_error_notes (some error) host port =
      annotation (codes "error") error f.exit_time (codes "Redis") (some host) port ba_sa ∷ []

  abbrev pub redis_error_notes : Bool → Bytes → ℤ → List Annotation
  redis_error_notes false host port = []
  redis_error_notes true host port =
      last_error_notes (string_answer (t.php.call_method f.object (codes "getLastError"))) host port

  unfoldable pub redis_notes : Result (List Annotation)
  redis_notes =
      let host = or_unknown (string_answer (t.php.call_method f.object (codes "getHost"))) in
      let port = or_zero (long_answer (t.php.call_method f.object (codes "getPort"))) in
      do
        value_param ← convert_args_to_string t.php f.function f.args
        ok (
            server_note t f (codes "redis") (some host) port
            ++ note t f (codes "db.statement") value_param
            ++ note t f (codes "db.type") (codes "redis")
            ++ redis_error_notes (is_false f.ret) host port
            ++ (if t.php.has_class (codes "redisexception")
                then exception_notes t f (codes "redisexception") t.php.exception
                else []))

  -- `redis_record`
  unfoldable pub redis_record : State → Result State
  redis_record s = record_span t f.function redis_notes f (layered cache_layer jedis_cn s)

  abbrev pub result_text : Option Bytes → Bytes
  result_text none = codes "unknown"
  result_text (some s) = s

  abbrev pub result_message_notes : Option Zval → List Annotation
  result_message_notes none = []
  result_message_notes (some v) = error_note t f (result_text (string_of v))

  -- `memcached_common_call`, behind what stands on the span already.
  unfoldable pub memcached_common_call : Result (List Annotation) → Result (List Annotation)
  memcached_common_call before = do
    first ← before
    value ← convert_args_to_string t.php f.function f.args
    ok (
        first
        ++ note t f (codes "db.statement") value
        ++ note t f (codes "db.type") (codes "memcache")
        ++ (if is_false f.ret
            then result_message_notes (t.php.call_method f.object (codes "getResultMessage"))
            else []))

  -- `memcached_common_record`
  unfoldable pub memcached_common_record : State → Result State
  memcached_common_record s =
      record_span t f.function (memcached_common_call (ok [])) f
        (layered cache_layer memcached_cn s)

  abbrev pub iport : Option Bytes → Option ℤ → ℤ
  iport (some port) n = atoi port
  iport none n = to_int32 (or_zero n)

  abbrev pub add_server_notes : Option Bytes → ℤ → List Annotation
  add_server_notes none port = []
  add_server_notes (some host) port = server_note t f (codes "memcache") (some host) port

  abbrev pub server_args_notes : List Zval → List Annotation
  server_args_notes [] = []
  server_args_notes (host ∷ []) = []
  server_args_notes (host ∷ port ∷ more) =
      add_server_notes (string_of host) (iport (string_of port) (long_of port))

  -- `memcached_add_server_record`
  unfoldable pub memcached_add_server_record : State → Result State
  memcached_add_server_record s =
      record_span t f.function (memcached_common_call (ok (server_args_notes f.args))) f
        (layered cache_layer memcached_cn s)

  -- The loop of `memcached_add_servers_record`. An entry of more than one element is read from its start,
  -- any other from `at`, where the position was left; `none` is a position that was never set.
  abbrev pub port_notes : Zval → Option Zval → List Annotation
  port_notes z_host none = []
  port_notes z_host (some z_port) =
      let host = c_string (t.php.to_string z_host) in
      server_note t f (codes "memcache") (some host) (t.php.to_long z_port)

  abbrev pub host_notes : List Zval → ℕ → Option Zval → List Annotation × Option ℕ
  host_notes vs at none = ([], some at)
  host_notes vs at (some z_host) = (port_notes z_host (get_elem? vs (at + 1)), some (at + 1))

  abbrev pub from_position : List Zval → Option ℕ → Result (List Annotation × Option ℕ)
  from_position vs none = fault
  from_position vs (some at) = ok (host_notes vs at (get_elem? vs at))

  abbrev pub entry_notes : Option ℕ → Option Arr → Result (List Annotation × Option ℕ)
  entry_notes at none = ok ([], at)
  entry_notes at (some a) =
      from_position (values a) (if ltb 1 (length (values a)) then some 0 else at)

  unfoldable pub servers_loop : Option ℕ → List Zval → Result (List Annotation)
  servers_loop at [] = ok []
  servers_loop at (v ∷ more) = do
    (notes, at') ← entry_notes at (as_array (some v))
    rest ← servers_loop at' more
    ok (notes ++ rest)

  abbrev pub servers_notes : Option Arr → Result (List Annotation)
  servers_notes none = ok []
  servers_notes (some servers) = servers_loop none (values servers)

  -- `memcached_add_servers_record`
  unfoldable pub memcached_add_servers_record : State → Result State
  memcached_add_servers_record s =
      record_span t f.function
        (memcached_common_call
          (arg 0 f.args >>= λ servers. servers_notes (as_array (some servers))))
        f (layered cache_layer memcached_cn s)
