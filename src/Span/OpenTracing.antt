-- ===== src/Span/OpenTracing.antt =====
-- The spans of the OpenTracing format. A span is the array of its zval, which is not NULL.
use molten.Common.{Bool, true, Option, none, some, List, [], ◌∷◌, Bytes, codes, ℤ, ℕ}
use molten.Zval.{
  long, double, boolean, string, array, Arr, empty, add_assoc, add_next_index, in_array,
}
use molten.Span.{
  AnType, an_server, an_client, BaType, ba_normal, ba_sa, ba_sa_host, ba_sa_ip, ba_sa_dsn, ba_error,
  ba_path,
}

abbrev pub add_parent_span_id : Option Bytes → Arr → Arr
add_parent_span_id none context = context
add_parent_span_id (some id) context = add_assoc (codes "parentSpanID") (string id) context

-- `ot_start_span`
unfoldable pub start_span : Bytes → Bytes → Bytes → Option Bytes → ℕ → ℕ → Arr
start_span op_name trace_id span_id parent_id start_time finish_time =
    let times = add_assoc (codes "finishTime") (double finish_time) (
      add_assoc (codes "startTime") (double start_time)
        (add_assoc (codes "operationName") (string op_name) empty)) in
    let context = add_parent_span_id parent_id (
      add_assoc (codes "spanID") (string span_id)
        (add_assoc (codes "traceID") (string trace_id) empty)) in
    add_assoc (codes "logs") (array empty) (
      add_assoc (codes "tags") (array empty)
        (add_assoc (codes "spanContext") (array context) times))

-- `ot_add_tag`, where `none` is NULL.
unfoldable pub add_tag : Option Bytes → Option Bytes → Arr → Arr
add_tag (some key) (some val) span = in_array (codes "tags") (add_assoc key (string val)) span
add_tag (some key) none span = span
add_tag none val span = span

-- `ot_add_tag_long`; its callers pass a key.
unfoldable pub add_tag_long : Bytes → ℤ → Arr → Arr
add_tag_long key val span = in_array (codes "tags") (add_assoc key (long val)) span

-- `ot_add_tag_bool`; its callers pass a key.
unfoldable pub add_tag_bool : Bytes → Bool → Arr → Arr
add_tag_bool key val span = in_array (codes "tags") (add_assoc key (boolean val)) span

-- The loop of `ot_add_log` over its variable arguments.
unfoldable pub add_fields : List (Bytes × Bytes) → Arr → Arr
add_fields [] fields = fields
add_fields ((key, val) ∷ more) fields = add_fields more (add_assoc key (string val) fields)

-- `ot_add_log`
unfoldable pub add_log : ℕ → List (Bytes × Bytes) → Arr → Arr
add_log timestamp args span =
    let log =
      add_assoc (codes "fields") (array (add_fields args empty))
        (add_assoc (codes "timestamp") (double timestamp) empty) in
    in_array (codes "logs") (add_next_index (array log)) span

-- `ot_start_span_builder`
unfoldable pub start_span_builder : Bytes → Bytes → Bytes → Option Bytes → ℕ → ℕ → AnType → Arr
start_span_builder service_name trace_id span_id parent_id start_time finish_time an_server =
    add_tag (some (codes "span.kind")) (some (codes "server"))
      (start_span service_name trace_id span_id parent_id start_time finish_time)
start_span_builder service_name trace_id span_id parent_id start_time finish_time an_client =
    add_tag (some (codes "span.kind")) (some (codes "client"))
      (start_span service_name trace_id span_id parent_id start_time finish_time)

-- The tags of an address.
abbrev pub add_peer : Bytes → Option Bytes → Option Bytes → ℤ → Arr → Arr
add_peer key service_name ipv4 port span =
    add_tag (some (codes "peer.service")) service_name
      (add_tag_long (codes "peer.port") port (add_tag (some key) ipv4 span))

-- `ot_span_add_ba_builder`; its callers pass a value that is not NULL.
unfoldable pub span_add_ba_builder :
    Option Bytes → Bytes → ℕ → Option Bytes → Option Bytes → ℤ → BaType → Arr → Arr
span_add_ba_builder key value timestamp service_name ipv4 port ba_normal span =
    add_tag key (some value) span
span_add_ba_builder key value timestamp service_name ipv4 port ba_sa span =
    add_peer (codes "peer.ipv4") service_name ipv4 port span
span_add_ba_builder key value timestamp service_name ipv4 port ba_sa_host span =
    add_peer (codes "peer.hostname") service_name ipv4 port span
span_add_ba_builder key value timestamp service_name ipv4 port ba_sa_ip span =
    add_peer (codes "peer.ipv4") service_name ipv4 port span
span_add_ba_builder key value timestamp service_name ipv4 port ba_sa_dsn span =
    add_tag (some (codes "peer.address")) (some value) span
span_add_ba_builder key value timestamp service_name ipv4 port ba_path span = span
span_add_ba_builder key value timestamp service_name ipv4 port ba_error span =
    add_log timestamp
      ((codes "event", codes "error")
        ∷ (codes "error.kind", codes "Exception")
        ∷ (codes "message", value)
        ∷ [])
      (add_tag_bool (codes "error") true span)
