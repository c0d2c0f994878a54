-- ===== src/Span/Zipkin.antt =====
-- The spans of the Zipkin format. A span is the array of its zval, which is not NULL.
use molten.Common.{Option, none, some, ◌++◌, Bytes, codes, if◌then◌else◌, ℤ, ℕ, ◌==◌, magnitude}
use molten.Zval.{
  Zval, long, double, string, array, Arr, empty, find, add_assoc, add_next_index, in_array,
}
use molten.Span.{ChainNames, AnType, an_server, an_client, BaType, duration}

-- `SPAN_VERSION` of this format
abbrev pub span_version : Bytes
span_version = codes "php-4"

abbrev pub add_parent_id : Option Bytes → Arr → Arr
add_parent_id none span = span
add_parent_id (some id) span = add_assoc (codes "parentId") (string id) span

-- `zn_start_span`
unfoldable pub start_span : Bytes → Bytes → Bytes → Option Bytes → ℕ → ℤ → Arr
start_span trace_id server_name span_id parent_id timestamp duration =
    let names = add_assoc (codes "id") (string span_id) (
      add_assoc (codes "version") (string span_version) (
        add_assoc (codes "name") (string server_name)
          (add_assoc (codes "traceId") (string trace_id) empty))) in
    add_assoc (codes "binaryAnnotations") (array empty) (
      add_assoc (codes "annotations") (array empty) (
        add_assoc (codes "duration") (long duration)
          (add_assoc (codes "timestamp") (double timestamp) (add_parent_id parent_id names))))

-- `zn_build_service_name`
unfoldable pub build_service_name : ChainNames → Bytes → Bytes
build_service_name pct service_name = pct.service_name ++ codes "-" ++ service_name

abbrev pub add_port : ℤ → Arr → Arr
add_port port endpoint =
    if magnitude port == 0 then endpoint else add_assoc (codes "port") (long port) endpoint

-- `zn_add_endpoint`
unfoldable pub add_endpoint : Bytes → Bytes → ℤ → Arr → Arr
add_endpoint service_name ipv4 port annotation =
    let endpoint =
      add_assoc (codes "ipv4") (string ipv4)
        (add_assoc (codes "serviceName") (string service_name) empty) in
    add_assoc (codes "endpoint") (array (add_port port endpoint)) annotation

-- The element that `zn_add_span_annotation` adds.
unfoldable pub annotation : Bytes → ℕ → Bytes → Bytes → ℤ → Arr
annotation value timestamp service_name ipv4 port = add_endpoint service_name ipv4 port (
    add_assoc (codes "timestamp") (double timestamp)
      (add_assoc (codes "value") (string value) empty))

-- `zn_add_span_annotation`, where `none` is NULL.
unfoldable pub add_span_annotation : Option Bytes → ℕ → Option Bytes → Option Bytes → ℤ → Arr → Arr
add_span_annotation (some value) timestamp (some service_name) (some ipv4) port span =
    in_array (codes "annotations")
      (add_next_index (array (annotation value timestamp service_name ipv4 port))) span
add_span_annotation (some value) timestamp (some service_name) none port span = span
add_span_annotation (some value) timestamp none ipv4 port span = span
add_span_annotation none timestamp service_name ipv4 port span = span

-- `zn_add_span_annotation_ex`
unfoldable pub add_span_annotation_ex : Bytes → ℕ → ChainNames → Arr → Arr
add_span_annotation_ex value timestamp pct span =
    add_span_annotation (some value) timestamp (some pct.service_name) (some pct.ip) pct.port span

-- The element that `zn_add_span_bannotation` adds.
unfoldable pub bannotation : Bytes → Bytes → Bytes → Bytes → ℤ → Arr
bannotation key value service_name ipv4 port =
    add_endpoint service_name ipv4 port
      (add_assoc (codes "value") (string value) (add_assoc (codes "key") (string key) empty))

-- An array is put under the name if there is nothing.
abbrev pub ensure_array : Option Zval → Bytes → Arr → Arr
ensure_array none name span = add_assoc name (array empty) span
ensure_array (some v) name span = span

-- `zn_add_span_bannotation`, where `none` is NULL.
unfoldable pub add_span_bannotation :
    Option Bytes → Option Bytes → Option Bytes → Option Bytes → ℤ → Arr → Arr
add_span_bannotation (some key) (some value) (some service_name) (some ipv4) port span =
    in_array (codes "binaryAnnotations")
      (add_next_index (array (bannotation key value service_name ipv4 port)))
      (ensure_array (find (codes "binaryAnnotations") span) (codes "binaryAnnotations") span)
add_span_bannotation (some key) (some value) (some service_name) none port span = span
add_span_bannotation (some key) (some value) none ipv4 port span = span
add_span_bannotation (some key) none service_name ipv4 port span = span
add_span_bannotation none value service_name ipv4 port span = span

-- `zn_start_span_builder`
unfoldable pub start_span_builder :
    Bytes → Bytes → Bytes → Option Bytes → ℕ → ℕ → ChainNames → AnType → Arr
start_span_builder service_name trace_id span_id parent_id start_time finish_time pct an_server =
    add_span_annotation_ex (codes "ss") finish_time pct (
      add_span_annotation_ex (codes "sr") start_time pct (
        start_span trace_id service_name span_id parent_id start_time
          (duration start_time finish_time)))
start_span_builder service_name trace_id span_id parent_id start_time finish_time pct an_client =
    add_span_annotation_ex (codes "cr") finish_time pct (
      add_span_annotation_ex (codes "cs") start_time pct (
        start_span trace_id service_name span_id parent_id start_time
          (duration start_time finish_time)))

-- `zn_span_add_ba_builder`
unfoldable pub span_add_ba_builder :
    Option Bytes → Option Bytes → ℕ → Option Bytes → Option Bytes → ℤ → BaType → Arr → Arr
span_add_ba_builder key value timestamp service_name ipv4 port ba_type span =
    add_span_bannotation key value service_name ipv4 port span
