-- ===== src/Record/Safe.antt =====
-- When the record functions come to their end, what they rely on without a test, and when they add a
-- span.
use molten.Common.{
  ◌≤◌, ◌<◌, ◌≡◌, Option, none, some, List, [], ◌∷◌, All, Bytes, codes, bytes_eq, length, leb,
  is_some, ℕ, ℤ, Bool, true, false, if◌then◌else◌, Result, ok, ◌>>=◌,
}
use molten.Zval.{Zval, Arr, as_array, values, find_index}
use molten.Intercept.Tables.{
  Recorder, curl_multi_add_handle, curl_multi_remove_handle, pdo, pdo_statement, redis,
  memcached_common, memcached_add_server, memcached_add_servers, mysqli_connect,
  mysqli_real_connect, mysqli_query, mysqli_oo_query, mysqli_common, mysqli_stmt_exe_oo,
  mysqli_stmt_prepare_procedural, mysqli_stmt_exe_procedural, mongodb, mongodb_server,
  guzzle_request, es_request, default_es,
}
use molten.Record.Engine.{Frame, State, Tracer, PdoDbh, PdoStmt}
use molten.Record.Cache.{long_answer}
use molten.Record.Curl.{info_value, array_answer, index_find, second_handle}

-- A result, and that it is one.
abbrev pub Total {ℓ} : {A : Type ℓ} → Result A → Type ℓ
Total {A} m = (a : A) × (m ≡ ok a)

pub bind-Total {ℓ κ} :
    {A : Type ℓ} {B : Type κ} (m : Result A) (k : A → Result B)
    → Total m
    → ((a : A) → Total (k a))
    → Total (m >>= k)
bind-Total m k (a, e) h = rw e (h a)

-- The name of a driver fits the 64 bytes that it is copied to.
abbrev pub IsShort : Option Bytes → Type 0
IsShort none = Unit
IsShort (some name) = length name < 64

abbrev pub IsShortDbh : Option PdoDbh → Type 0
IsShortDbh none = Unit
IsShortDbh (some dbh) = IsShort dbh.driver_name

-- A statement's connection has a data source, if it has a driver.
abbrev pub HasSource : Option Bytes → Option Bytes → Type 0
HasSource none source = Unit
HasSource (some name) source = (length name < 64) × ((s : Bytes) × (source ≡ some s))

abbrev pub IsSourcedDbh : Option PdoDbh → Type 0
IsSourcedDbh none = Unit
IsSourcedDbh (some dbh) = HasSource dbh.driver_name dbh.data_source

abbrev pub IsSourcedStmt : Option PdoStmt → Type 0
IsSourcedStmt none = Unit
IsSourcedStmt (some stmt) = IsSourcedDbh stmt.dbh

-- The third element of what `errorInfo` answers is a string, if there is one.
abbrev pub IsText : Option Zval → Type 0
IsText none = Unit
IsText (some (Zval.string s)) = Unit
IsText (some v) = ⊥

abbrev pub HasText : Option Arr → Type 0
HasText none = Unit
HasText (some info) = IsText (find_index 2 info)

abbrev pub TellsText : Option Zval → Type 0
TellsText none = Unit
TellsText (some v) = HasText (as_array (some v))

-- An entry of the list of servers has a host and a port, if it is an array.
abbrev pub IsPair : Option Arr → Type 0
IsPair none = Unit
IsPair (some a) = 1 < length (values a)

abbrev pub AllPairs : Option Arr → Type 0
AllPairs none = Unit
AllPairs (some servers) = All (λ v. IsPair (as_array (some v))) (values servers)

abbrev pub ListsServers : List Zval → Type 0
ListsServers [] = ⊥
ListsServers (servers ∷ more) = AllPairs (as_array (some servers))

-- What `curl_getinfo` answers has the two values that are converted.
abbrev pub HasInfo : (Bytes → Option Zval) → Type 0
HasInfo info =
    ((url : Zval) × (info (codes "url") ≡ some url))
    × ((code : Zval) × (info (codes "http_code") ≡ some code))

module _ (t : Tracer) (f : Frame t.mode.Context) where
  abbrev pub enough : ℕ → Bool
  enough n = leb n (length f.args)

  -- `prepare` needs its statement, `execute` nothing.
  abbrev pub exe_oo_adds : Bool
  exe_oo_adds = if bytes_eq f.function (codes "prepare") then enough 1 else true

-- A handle that was added before.
abbrev pub remove_adds : Option ℤ → State → Bool
remove_adds none s = false
remove_adds (some ch) s = is_some (long_answer (index_find ch s.span_info_cache))

module _ (t : Tracer) where
  -- Whether a span is added.
  abbrev pub adds : Recorder → Frame t.mode.Context → State → Bool
  adds curl_multi_add_handle f s = false
  adds curl_multi_remove_handle f s = remove_adds (second_handle f.args) s
  adds pdo f s = true
  adds pdo_statement f s = true
  adds redis f s = true
  adds memcached_common f s = true
  adds memcached_add_server f s = true
  adds memcached_add_servers f s = true
  adds mysqli_connect f s = enough t f 1
  adds mysqli_real_connect f s = enough t f 2
  adds mysqli_query f s = enough t f 2
  adds mysqli_oo_query f s = enough t f 1
  adds mysqli_common f s = true
  adds mysqli_stmt_exe_oo f s = exe_oo_adds t f
  adds mysqli_stmt_prepare_procedural f s = enough t f 2
  adds mysqli_stmt_exe_procedural f s = true
  adds mongodb f s = enough t f 1
  adds mongodb_server f s = enough t f 1
  adds guzzle_request f s = true
  adds es_request f s = true
  adds default_es f s = true

module _ (t : Tracer) (id_of parent_of : Arr → Option Bytes) where
  -- What was captured has no ids of a span.
  abbrev pub IsExtra : Option Arr → Type 0
  IsExtra none = ⊥
  IsExtra (some extra) = (id_of extra ≡ none) × (parent_of extra ≡ none)

  -- What a record function needs of the frame and of what the engine answers.
  abbrev pub IsSafe : Recorder → Frame t.mode.Context → Type 0
  IsSafe curl_multi_add_handle f = Unit
  IsSafe curl_multi_remove_handle f =
      (handle : Zval)
      → HasInfo (λ name.
        info_value name (array_answer (t.php.call_function (codes "curl_getinfo") (handle ∷ []))))
  IsSafe pdo f =
      IsShortDbh (t.php.pdo_dbh f.object)
      × TellsText (t.php.call_method f.object (codes "errorInfo"))
  IsSafe pdo_statement f =
      IsSourcedStmt (t.php.pdo_stmt f.object)
      × TellsText (t.php.call_method f.object (codes "errorInfo"))
  IsSafe redis f = length f.function ≤ 58
  IsSafe memcached_common f = length f.function ≤ 58
  IsSafe memcached_add_server f = length f.function ≤ 58
  IsSafe memcached_add_servers f = (length f.function ≤ 58) × ListsServers f.args
  IsSafe mysqli_connect f = Unit
  IsSafe mysqli_real_connect f = Unit
  IsSafe mysqli_query f = Unit
  IsSafe mysqli_oo_query f = Unit
  IsSafe mysqli_common f = Unit
  IsSafe mysqli_stmt_exe_oo f = Unit
  IsSafe mysqli_stmt_prepare_procedural f = Unit
  IsSafe mysqli_stmt_exe_procedural f = 1 ≤ length f.args
  IsSafe mongodb f = length f.function ≤ 58
  IsSafe mongodb_server f = length f.function ≤ 58
  IsSafe guzzle_request f = IsExtra f.span_extra
  IsSafe es_request f =
      IsExtra f.span_extra × ((host : Bytes) → t.php.url_free (t.php.url_parse host) ≡ ok tt)
  IsSafe default_es f = IsExtra f.span_extra
