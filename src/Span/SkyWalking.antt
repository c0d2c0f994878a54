-- ===== src/Span/SkyWalking.antt =====
-- The spans of the SkyWalking format. A span is the array of its zval, which is not NULL.
use molten.Common.{
  ℕ, ◌-◌, ◌%◌, ◌^◌, ◌==◌, ◌&&◌, ◌||◌, leb, length, take, Bool, true, false, Option, none, some,
  List, [], ◌∷◌, ◌++◌, Bytes, codes, ℤ, pos, negsuc, atoi, decimal_ℤ, is_digit, if◌then◌else◌,
  Result, ok, fault, ◌>>=◌,
}
use molten.Ids.{sprintf}
use molten.Zval.{
  long, double, boolean, string, array, Arr, empty, add_assoc, add_next_index, in_array,
}
use molten.Span.{
  AnType, an_server, an_client, BaType, ba_normal, ba_sa, ba_sa_host, ba_sa_ip, ba_sa_dsn, ba_error,
  ba_path,
}

-- The fields of `mo_chain_t` that the format reads. `PHP_CLI` stands for a component 0.
pub record SkyChain : Type 0 where
  pub service_name : Bytes
  pub span_type : ℤ
  pub span_layer : ℤ
  pub component_id : ℤ
  pub has_error_list : Bool

abbrev pub php_cli : ℤ
php_cli = pos 5001

unfoldable pub component : ℤ → ℤ
component (pos n) = if n == 0 then php_cli else pos n
component (negsuc n) = negsuc n

-- An `int` as an `unsigned int`.
unfoldable pub to_uint32 : ℤ → ℕ
to_uint32 (pos n) = n % 2 ^ 32
to_uint32 (negsuc n) = 2 ^ 32 - 1 - n % 2 ^ 32

abbrev pub starts_digit : Bytes → Bool
starts_digit [] = false
starts_digit (c ∷ s) = is_digit c

-- Whether `%d` of `sscanf` matches: white space, a sign, a digit.
unfoldable pub starts_int : Bytes → Bool
starts_int [] = false
starts_int (c ∷ s) =
    let rest = starts_int s in
    if c == b' ' || (leb 9 c && leb c 13)
    then rest
    else if c == b'-' || c == b'+'
    then starts_digit s
    else is_digit c

-- `sscanf(id, "%d", &n)` for a number that fits an `int`; without a match `n` is read unset.
unfoldable pub scan : Bytes → Result ℕ
scan id = if starts_int id then ok (to_uint32 (atoi id)) else fault

abbrev pub add_parent_id : Option Bytes → Arr → Result Arr
add_parent_id none span = ok (add_assoc (codes "ps") (long (negsuc 0)) span)
add_parent_id (some id) span = do n ← scan id; ok (add_assoc (codes "ps") (long (pos n)) span)

-- `ie`, as the code sets it.
abbrev pub no_error_list : Bool → Bool
no_error_list true = false
no_error_list false = true

abbrev pub operation_name : Bytes → Bytes → Bytes → Bytes
operation_name service_name op_name span_id =
    service_name ++ codes "/" ++ op_name ++ codes "_" ++ span_id

-- The fields up to `ie`.
unfoldable pub fields : Bytes → ℕ → Bytes → ℕ → ℕ → SkyChain → Arr
fields op_name si on start_time finish_time pct =
    let numbers = add_assoc (codes "lv") (long pct.span_layer) (
      add_assoc (codes "tv") (long pct.span_type) (add_assoc (codes "si") (long (pos si)) empty)) in
    let times =
      add_assoc (codes "et") (double finish_time)
        (add_assoc (codes "st") (double start_time) numbers) in
    let names = add_assoc (codes "on") (string on) (
      add_assoc (codes "cn") (string op_name)
        (add_assoc (codes "ci") (long (component pct.component_id)) times)) in
    add_assoc (codes "ie") (boolean (no_error_list pct.has_error_list)) names

-- `sk_add_span`
unfoldable pub add_span : Bytes → Bytes → Option Bytes → ℕ → ℕ → SkyChain → Result Arr
add_span op_name span_id parent_id start_time finish_time pct = do
  si ← scan span_id
  on ← sprintf 128 (operation_name pct.service_name op_name span_id)
  span ← add_parent_id parent_id (fields op_name si on start_time finish_time pct)
  ok (add_assoc (codes "lo") (array empty) (add_assoc (codes "to") (array empty) span))

unfoldable pub pair : Bytes → Bytes → Arr
pair key val = add_assoc (codes "v") (string val) (add_assoc (codes "k") (string key) empty)

-- `sk_add_tag`, where `none` is NULL.
unfoldable pub add_tag : Option Bytes → Option Bytes → Arr → Arr
add_tag (some key) (some val) span =
    in_array (codes "to") (add_next_index (array (pair key val))) span
add_tag (some key) none span = span
add_tag none val span = span

-- The loop of `sk_add_log` over its variable arguments.
unfoldable pub add_fields : List (Bytes × Bytes) → Arr → Arr
add_fields [] log_filed = log_filed
add_fields ((key, val) ∷ more) log_filed =
    add_fields more (add_next_index (array (pair key val)) log_filed)

-- `sk_add_log`. The array of the fields is filled after it has been put in its place, which it shares.
unfoldable pub add_log : ℕ → List (Bytes × Bytes) → Arr → Arr
add_log timestamp args span =
    let log =
      add_assoc (codes "ld") (array (add_fields args empty))
        (add_assoc (codes "ti") (double timestamp) empty) in
    in_array (codes "lo") (add_next_index (array log)) span

abbrev pub kind_of : AnType → Bytes
kind_of an_server = codes "server"
kind_of an_client = codes "client"

-- `sk_start_span_builder`
unfoldable pub start_span_builder :
    Bytes → Bytes → Option Bytes → ℕ → ℕ → SkyChain → AnType → Result Arr
start_span_builder service_name span_id parent_id start_time finish_time pct an_type = do
  span ← add_span service_name span_id parent_id start_time finish_time pct
  ok (add_tag (some (codes "span.kind")) (some (kind_of an_type)) span)

-- `printf` writes `(null)` for NULL.
abbrev pub or_null : Option Bytes → Bytes
or_null none = codes "(null)"
or_null (some s) = s

-- The text in an array, up to a NUL; to read behind the array is a fault.
unfoldable pub read_text : Bytes → Result Bytes
read_text [] = fault
read_text (c ∷ buf) =
    let rest = read_text buf in if c == 0 then ok [] else (do s ← rest; ok (c ∷ s))

-- Of a value of more than 128 bytes `strncpy` fills the 128 bytes of `tmp`, which is read as a text. (Its
-- block has ended then, so that nothing is certain even of these bytes.)
unfoldable pub shortened : Bytes → Result Bytes
shortened value = if leb (length value) 128 then ok value else read_text (take 128 value)

abbrev pub add_peer : Bytes → Bytes → Option Bytes → Option Bytes → ℤ → Arr → Arr
add_peer key peer_name service_name ipv4 port span =
    add_tag (some (codes "peer.service")) service_name (
      add_tag (some (codes "peer.port")) (some (decimal_ℤ port))
        (add_tag (some key) ipv4 (add_assoc (codes "pn") (string peer_name) span)))

abbrev pub add_error : ℕ → Bytes → Arr → Arr
add_error timestamp value span =
    add_log timestamp
      ((codes "event", codes "error")
        ∷ (codes "error.kind", codes "Exception")
        ∷ (codes "message", value)
        ∷ [])
      (add_assoc (codes "ie") (boolean true)
        (add_tag (some (codes "error")) (some (codes "true")) span))

abbrev pub add_ba :
    BaType → Bytes → Bytes → ℕ → Bytes → Option Bytes → Option Bytes → ℤ → Arr → Result Arr
add_ba ba_normal key value timestamp peer_name service_name ipv4 port span = do
  v ← shortened value
  ok (add_tag (some key) (some v) span)
add_ba ba_sa key value timestamp peer_name service_name ipv4 port span =
    ok (add_peer (codes "peer.ipv4") peer_name service_name ipv4 port span)
add_ba ba_sa_host key value timestamp peer_name service_name ipv4 port span =
    ok (add_peer (codes "peer.hostname") peer_name service_name ipv4 port span)
add_ba ba_sa_ip key value timestamp peer_name service_name ipv4 port span =
    ok (add_peer (codes "peer.ipv4") peer_name service_name ipv4 port span)
add_ba ba_sa_dsn key value timestamp peer_name service_name ipv4 port span = do
  v ← shortened value
  ok (add_tag (some (codes "peer.address")) (some v) span)
add_ba ba_path key value timestamp peer_name service_name ipv4 port span = do
  v ← shortened value
  ok (add_tag (some key) (some v) span)
add_ba ba_error key value timestamp peer_name service_name ipv4 port span = do
  v ← shortened value
  ok (add_error timestamp v span)

-- `sk_span_add_ba_builder`. Without a key or a value nothing is added.
unfoldable pub span_add_ba_builder :
    Option Bytes → Option Bytes → ℕ → Option Bytes → Option Bytes → ℤ → BaType → Arr → Result Arr
span_add_ba_builder none value timestamp service_name ipv4 port ba_type span = ok span
span_add_ba_builder (some key) none timestamp service_name ipv4 port ba_type span = ok span
span_add_ba_builder (some key) (some value) timestamp service_name ipv4 port ba_type span = do
  peer_name ← sprintf 64 (or_null ipv4 ++ codes ":" ++ decimal_ℤ port)
  add_ba ba_type key value timestamp peer_name service_name ipv4 port span

-- `sk_add_segments_builder`, by the process id and the time in milliseconds.
unfoldable pub add_segments_builder : ℤ → ℤ → ℕ → ℤ → Arr → Arr
add_segments_builder application_id pid millis instance_id span =
    let trace_id =
      add_next_index (double millis)
        (add_next_index (long pid) (add_next_index (long instance_id) empty)) in
    let global_trace_ids = add_next_index (array trace_id) empty in
    let segment_object = add_assoc (codes "ss") (array span) (
      add_assoc (codes "ii") (long instance_id) (
        add_assoc (codes "ai") (long application_id)
          (add_assoc (codes "ts") (array trace_id) empty))) in
    let segments_tmp =
      add_assoc (codes "sg") (array segment_object)
        (add_assoc (codes "gt") (array global_trace_ids) empty) in
    add_next_index (array segments_tmp) empty
