-- ===== src/Record/Dispatch.antt =====
-- `record` and `capture` of an element of the interceptor's tables.
use molten.Common.{Option, none, some, Result, ok}
use molten.Intercept.Tables.{
  Capture, of_args, of_request, Recorder, curl_multi_add_handle, curl_multi_remove_handle, pdo,
  pdo_statement, redis, memcached_common, memcached_add_server, memcached_add_servers,
  mysqli_connect, mysqli_real_connect, mysqli_query, mysqli_oo_query, mysqli_common,
  mysqli_stmt_exe_oo, mysqli_stmt_prepare_procedural, mysqli_stmt_exe_procedural, mongodb,
  mongodb_server, guzzle_request, es_request, default_es,
}
use molten.Record.Engine.{Frame, State, Tracer}
use molten.Record.Pdo
use molten.Record.Cache
use molten.Record.Mysqli
use molten.Record.Mongo
use molten.Record.Client
use molten.Record.Curl

module _ (t : Tracer) where
  -- `i_ele->record(&PTG(pit), &frame)`
  unfoldable pub record_with : Recorder → Frame t.mode.Context → State → Result State
  record_with curl_multi_add_handle f = Curl.curl_multi_add_handle_record t f
  record_with curl_multi_remove_handle f = Curl.curl_multi_remove_handle_record t f
  record_with pdo f = Pdo.pdo_record t f
  record_with pdo_statement f = Pdo.pdo_statement_record t f
  record_with redis f = Cache.redis_record t f
  record_with memcached_common f = Cache.memcached_common_record t f
  record_with memcached_add_server f = Cache.memcached_add_server_record t f
  record_with memcached_add_servers f = Cache.memcached_add_servers_record t f
  record_with mysqli_connect f = Mysqli.mysqli_connect_record t f
  record_with mysqli_real_connect f = Mysqli.mysqli_real_connect_record t f
  record_with mysqli_query f = Mysqli.mysqli_query_record t f
  record_with mysqli_oo_query f = Mysqli.mysqli_oo_query_record t f
  record_with mysqli_common f = Mysqli.mysqli_common_record t f
  record_with mysqli_stmt_exe_oo f = Mysqli.mysqli_stmt_exe_oo_record t f
  record_with mysqli_stmt_prepare_procedural f = Mysqli.mysqli_stmt_prepare_procedural_record t f
  record_with mysqli_stmt_exe_procedural f = Mysqli.mysqli_stmt_exe_procedural_record t f
  record_with mongodb f = Mongo.mongodb_record t f
  record_with mongodb_server f = Mongo.mongodb_server_record t f
  record_with guzzle_request f = Client.guzzle_request_record t f
  record_with es_request f = Client.es_request_record t f
  record_with default_es f = Client.default_es_record t f

  -- `i_ele->capture(&PTG(pit), &frame)`, if there is one
  unfoldable pub capture_with :
      Option Capture → Frame t.mode.Context → Result (Frame t.mode.Context)
  capture_with none f = ok f
  capture_with (some of_args) f = Client.default_capture t f
  capture_with (some of_request) f = Client.guzzle_request_capture t f
