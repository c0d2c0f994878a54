-- ===== src/Intercept/Tables.antt =====
-- The tables that `mo_intercept_ctor` of molten_intercept.c fills: which calls are traced, and by which
-- capture and record functions.
use molten.Common.{
  Bool, true, false, Option, none, some, List, [], ◌∷◌, ◌++◌, map, Bytes, codes, lower,
}
use molten.Intercept.{Interceptor}

-- The capture functions: `default_capture`, `guzzle_request_capture`.
pub data Capture : Type 0 where
  of_args : Capture
  of_request : Capture

-- The record functions, in the order of their definition. `mysqli_construct_record` does what
-- `mysqli_connect_record` does.
pub data Recorder : Type 0 where
  curl_multi_add_handle : Recorder
  curl_multi_remove_handle : Recorder
  pdo : Recorder
  pdo_statement : Recorder
  redis : Recorder
  memcached_common : Recorder
  memcached_add_server : Recorder
  memcached_add_servers : Recorder
  mysqli_connect : Recorder
  mysqli_real_connect : Recorder
  mysqli_query : Recorder
  mysqli_oo_query : Recorder
  mysqli_common : Recorder
  mysqli_stmt_exe_oo : Recorder
  mysqli_stmt_prepare_procedural : Recorder
  mysqli_stmt_exe_procedural : Recorder
  mongodb : Recorder
  mongodb_server : Recorder
  guzzle_request : Recorder
  es_request : Recorder
  default_es : Recorder

-- `mo_interceptor_ele_t`, with its key in front of it in the table.
pub record Element : Type 0 where
  pub capture : Option Capture
  pub recorder : Recorder

-- `INIT_INTERCEPTOR_ELE`
abbrev ele : Bytes → Option Capture → Recorder → Bytes × Element
ele key capture recorder = (key, record { capture = capture; recorder = recorder })

abbrev plain : Recorder → Bytes → Bytes × Element
plain recorder key = ele key none recorder

-- The methods of `RIE`.
abbrev redis_methods : List Bytes
redis_methods =
    codes "Redis@connect"
    ∷ codes "Redis@open"
    ∷ codes "Redis@pconnect"
    ∷ codes "Redis@popen"
    ∷ codes "Redis@auth"
    ∷ codes "Redis@flushAll"
    ∷ codes "Redis@flushDb"
    ∷ codes "Redis@save"
    ∷ codes "Redis@append"
    ∷ codes "Redis@bitCount"
    ∷ codes "Redis@bitOp"
    ∷ codes "Redis@decr"
    ∷ codes "Redis@decrBy"
    ∷ codes "Redis@get"
    ∷ codes "Redis@getBit"
    ∷ codes "Redis@getRange"
    ∷ codes "Redis@getSet"
    ∷ codes "Redis@incr"
    ∷ codes "Redis@incrBy"
    ∷ codes "Redis@incrByFloat"
    ∷ codes "Redis@mGet"
    ∷ codes "Redis@getMultiple"
    ∷ codes "Redis@mSet"
    ∷ codes "Redis@mSetNx"
    ∷ codes "Redis@set"
    ∷ codes "Redis@setBit"
    ∷ codes "Redis@setEx"
    ∷ codes "Redis@pSetEx"
    ∷ codes "Redis@setNx"
    ∷ codes "Redis@setRange"
    ∷ codes "Redis@del"
    ∷ codes "Redis@delete"
    ∷ codes "Redis@dump"
    ∷ codes "Redis@exists"
    ∷ codes "Redis@keys"
    ∷ codes "Redis@getKeys"
    ∷ codes "Redis@scan"
    ∷ codes "Redis@migrate"
    ∷ codes "Redis@move"
    ∷ codes "Redis@persist"
    ∷ codes "Redis@sort"
    ∷ []

-- The methods of `MIE`.
abbrev memcached_methods : List Bytes
memcached_methods =
    codes "Memcached@add"
    ∷ codes "Memcached@addByKey"
    ∷ codes "Memcached@append"
    ∷ codes "Memcached@appendByKey"
    ∷ codes "Memcached@cas"
    ∷ codes "Memcached@casByKey"
    ∷ codes "Memcached@decrement"
    ∷ codes "Memcached@decrementByKey"
    ∷ codes "Memcached@delete"
    ∷ codes "Memcached@deleteByKey"
    ∷ codes "Memcached@deleteMulti"
    ∷ codes "Memcached@deleteMultiByKey"
    ∷ codes "Memcached@fetch"
    ∷ codes "Memcached@fetchAll"
    ∷ codes "Memcached@flush"
    ∷ codes "Memcached@get"
    ∷ codes "Memcached@getAllKeys"
    ∷ codes "Memcached@getByKey"
    ∷ codes "Memcached@getDelayed"
    ∷ codes "Memcached@getDelayedByKey"
    ∷ codes "Memcached@increment"
    ∷ codes "Memcached@incrementByKey"
    ∷ codes "Memcached@prepend"
    ∷ codes "Memcached@prependByKey"
    ∷ codes "Memcached@replace"
    ∷ codes "Memcached@replaceByKey"
    ∷ codes "Memcached@set"
    ∷ codes "Memcached@setByKey"
    ∷ codes "Memcached@setMulti"
    ∷ codes "Memcached@setMultiByKey"
    ∷ codes "Memcached@touch"
    ∷ codes "Memcached@touchByKey"
    ∷ []

-- A part of the tables, for one extension: its tags and its elements.
pub record Part : Type 0 where
  pub tags : List Bytes
  pub elements : List (Bytes × Element)

abbrev pub pdo_part : Part
pdo_part = record {
  tags = codes "PDO" ∷ codes "PDOStatement" ∷ [];
  elements =
      plain pdo_statement (codes "PDOStatement@execute")
      ∷ plain pdo (codes "PDO@exec")
      ∷ plain pdo (codes "PDO@query")
      ∷ plain pdo (codes "PDO@commit")
      ∷ plain pdo (codes "PDO@prepare")
      ∷ [];
}

abbrev pub mysqli_part : Part
mysqli_part = record {
  tags =
      codes "mysqli_connect"
      ∷ codes "mysqli_real_connect"
      ∷ codes "mysqli_query"
      ∷ codes "mysqli_prepare"
      ∷ codes "mysqli_stmt_execute"
      ∷ codes "mysqli_stmt_prepare"
      ∷ codes "mysqli"
      ∷ codes "mysqli_stmt"
      ∷ [];
  elements =
      plain mysqli_connect (codes "mysqli_connect")
      ∷ plain mysqli_real_connect (codes "mysqli_real_connect")
      ∷ plain mysqli_query (codes "mysqli_query")
      ∷ plain mysqli_query (codes "mysqli_prepare")
      ∷ plain mysqli_stmt_exe_procedural (codes "mysqli_stmt_execute")
      ∷ plain mysqli_stmt_prepare_procedural (codes "mysqli_stmt_prepare")
      ∷ plain mysqli_connect (codes "mysqli@__construct")
      ∷ plain mysqli_connect (codes "mysqli@mysqli")
      ∷ plain mysqli_connect (codes "mysqli@real_connect")
      ∷ plain mysqli_oo_query (codes "mysqli@query")
      ∷ plain mysqli_oo_query (codes "mysqli@prepare")
      ∷ plain mysqli_common (codes "mysqli@commit")
      ∷ plain mysqli_stmt_exe_oo (codes "mysqli_stmt@execute")
      ∷ plain mysqli_stmt_exe_oo (codes "mysqli_stmt@prepare")
      ∷ [];
}

abbrev pub curl_part : Part
curl_part = record {
  tags = codes "curl_multi_add_handle" ∷ codes "curl_multi_remove_handle" ∷ [];
  elements =
      plain curl_multi_add_handle (codes "curl_multi_add_handle")
      ∷ plain curl_multi_remove_handle (codes "curl_multi_remove_handle")
      ∷ [];
}

abbrev pub redis_part : Part
redis_part = record { tags = codes "Redis" ∷ []; elements = map (plain redis) redis_methods }

abbrev pub memcached_part : Part
memcached_part = record {
  tags = codes "Memcached" ∷ [];
  elements =
      plain memcached_add_server (codes "Memcached@addServer")
      ∷ plain memcached_add_servers (codes "Memcached@addServers")
      ∷ map (plain memcached_common) memcached_methods;
}

abbrev pub mongodb_part : Part
mongodb_part = record {
  tags = codes "MongoDB\\Driver\\Manager" ∷ codes "MongoDB\\Driver\\Server" ∷ [];
  elements =
      plain mongodb (codes "MongoDB\\Driver\\Manager@__construct")
      ∷ plain mongodb (codes "MongoDB\\Driver\\Manager@executeBulkWrite")
      ∷ plain mongodb (codes "MongoDB\\Driver\\Manager@executeCommand")
      ∷ plain mongodb (codes "MongoDB\\Driver\\Manager@executeQuery")
      ∷ plain mongodb_server (codes "MongoDB\\Driver\\Server@executeBulkWrite")
      ∷ plain mongodb_server (codes "MongoDB\\Driver\\Server@executeCommand")
      ∷ plain mongodb_server (codes "MongoDB\\Driver\\Server@executeQuery")
      ∷ [];
}

-- The classes of PHP libraries, which are always there.
abbrev pub client_part : Part
client_part = record {
  tags =
      codes "GuzzleHttp\\Client"
      ∷ codes "Elasticsearch\\Client"
      ∷ codes "Elasticsearch\\Namespaces\\IndicesNamespace"
      ∷ [];
  elements =
      ele (codes "GuzzleHttp\\Client@request") (some of_request) guzzle_request
      ∷ ele (codes "Elasticsearch\\Client@index") (some of_args) es_request
      ∷ ele (codes "Elasticsearch\\Client@get") (some of_args) es_request
      ∷ ele (codes "Elasticsearch\\Client@search") (some of_args) es_request
      ∷ ele (codes "Elasticsearch\\Client@delete") (some of_args) es_request
      ∷ ele (codes "Elasticsearch\\Namespaces\\IndicesNamespace@delete") (some of_args) default_es
      ∷ ele (codes "Elasticsearch\\Namespaces\\IndicesNamespace@create") (some of_args) default_es
      ∷ [];
}

abbrev pub no_part : Part
no_part = record { tags = []; elements = [] }

-- `extension_loaded`, where the registry of modules says which names are registered.
unfoldable pub extension_loaded : (Bytes → Bool) → Bytes → Bool
extension_loaded registered extension_name = registered (lower extension_name)

abbrev pub part_if : Bool → Part → Part
part_if true p = p
part_if false p = no_part

abbrev pub tags_of : List Part → List Bytes
tags_of [] = []
tags_of (p ∷ more) = p.tags ++ tags_of more

abbrev pub elements_of : List Part → List (Bytes × Element)
elements_of [] = []
elements_of (p ∷ more) = p.elements ++ elements_of more

abbrev pub tables : List Part → Interceptor Element
tables parts = record { tags = tags_of parts; elements = elements_of parts }

-- The tables of `mo_intercept_ctor`. No key is put in twice, so each is at the end.
unfoldable pub intercept_ctor : (Bytes → Bool) → Interceptor Element
intercept_ctor registered = tables (
    part_if (extension_loaded registered (codes "PDO")) pdo_part
    ∷ part_if (extension_loaded registered (codes "mysqli")) mysqli_part
    ∷ part_if (extension_loaded registered (codes "curl")) curl_part
    ∷ part_if (extension_loaded registered (codes "redis")) redis_part
    ∷ part_if (extension_loaded registered (codes "memcached")) memcached_part
    ∷ part_if (extension_loaded registered (codes "mongodb")) mongodb_part
    ∷ client_part
    ∷ [])
