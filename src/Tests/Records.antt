-- ===== src/Tests/Records.antt =====
-- The tables of the interceptor and the record functions at concrete inputs.
use molten.Common.{
  ◌+◌, ◌≤◌, ◌≡◌, refl, Bool, true, false, none, some, List, [], ◌∷◌, ◌++◌, All, Bytes, codes,
  c_string, decimal, decimal_ℤ, if◌then◌else◌, bytes_eq, length, take, replicate, arith, pos, ok,
  fault,
}
use molten.Zval.{Zval, string, long, boolean, object, null, empty}
use molten.Log.{ChainLog, add_span}
use molten.Log
use molten.Intercept.Tables.{intercept_ctor}
use molten.Intercept.Reached.{Reached, intercept_ctor-Reached}
use molten.Span.Builder.{zipkin}
use molten.SpanContext.Level
use molten.SpanContext.Level.{Context}
use molten.Record.Engine.{Engine, Frame, State, Tracer}
use molten.Record.Args.{
  strncat, convert_loop, repr_zval, convert_args_to_string, convert_args_to_string-fits,
  convert_args_to_string-overflow,
}
use molten.Tests.Tracing.{names, open_stack}

-- An engine in which every method answers the host of a server, and nothing else is there.
abbrev pub engine : Engine
engine = record {
  call_method =
      λ v name. if bytes_eq name (codes "getHost") then some (string (codes "10.0.0.2")) else none;
  call_function = λ name args. none;
  to_string = λ v. [];
  to_long = λ v. pos 0;
  print_double = λ n. [];
  class_of = λ h. codes "Redis";
  resource_type = λ r. none;
  has_class = λ name. false;
  exception = none;
  instance_of = λ v name. false;
  read_property = λ v name. null;
  regex = λ pattern. none;
  pdo_dbh = λ v. none;
  pdo_stmt = λ v. none;
  mysql = λ v. none;
  mysql_stmt = λ v. none;
  debug_info = λ v. empty;
  url_parse = λ s. none;
  url_free = λ u. ok tt;
  merge_recursive = λ span extra. span;
}

abbrev args : List Zval
args = string (codes "key") ∷ long (pos 12) ∷ boolean true ∷ []

converted : convert_args_to_string engine (codes "setEx") args ≡ ok (codes "setEx key,12,true,")
unfolding convert_args_to_string strncat convert_loop repr_zval c_string decimal_ℤ decimal
converted = refl

convert_args_to_string-fits_example :
    (s : Bytes) × (convert_args_to_string engine (codes "setEx") args ≡ ok s)
    × (length s ≤ 62)
    × (take (length (codes "setEx") + 1) s ≡ codes "setEx" ++ codes " ")
convert_args_to_string-fits_example =
    convert_args_to_string-fits engine (codes "setEx") args (omega arith)

convert_args_to_string-overflow_example :
    convert_args_to_string engine (replicate 63 b'a') args ≡ fault
convert_args_to_string-overflow_example =
    convert_args_to_string-overflow engine (replicate 63 b'a') args (omega arith)

abbrev only_redis : Bytes → Bool
only_redis name = bytes_eq name (codes "redis")

intercept_ctor-Reached_example :
    All (Reached (intercept_ctor only_redis)) (intercept_ctor only_redis).elements
intercept_ctor-Reached_example = intercept_ctor-Reached only_redis

abbrev tracer : Tracer
tracer = record { psb = zipkin; mode = Level.level_mode; php = engine; pct = names }

abbrev frame : Frame Context
frame = record {
  function = codes "setEx";
  args = args;
  object = object 7;
  ret = boolean true;
  entry_time = 5;
  exit_time = 6;
  span_extra = none;
  span_stack = open_stack;
}

abbrev state : State
state = record {
  span_layer = pos 0;
  component_id = pos 0;
  span_info_cache = [];
  log = Log.init (Log.ctor 0 0);
}
