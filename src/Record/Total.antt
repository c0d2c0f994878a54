-- ===== src/Record/Total.antt =====
-- The annotations of the record functions for PDO, Redis and Memcached, made wherever `IsSafe` holds.
pub mod Sql
pub mod Web
use molten.Common.{
  ℕ, ◌≤◌, ◌<◌, ◌≡◌, refl, Bool, true, false, Option, none, some, List, [], ◌∷◌, All, Bytes, codes,
  length, ltb, lt→ltb, arith, if◌then◌else◌, Bool-cases, inl, inr, Result, ok, fault, ◌>>=◌,
}
use molten.Zval.{Zval, Arr, as_array, values, find_index}
use molten.Span.Builder.{Annotation}
use molten.Record.Engine.{Frame, Tracer, PdoDbh, PdoStmt, arg}
use molten.Record.Args.{convert_args_to_string, convert_args_to_string-fits}
use molten.Record.Errors.{is_false, is_object, error_note?}
use molten.Record.Safe.{
  Total, bind-Total, IsShort, IsShortDbh, HasSource, IsSourcedDbh, IsSourcedStmt, IsText, HasText,
  TellsText, IsPair, AllPairs, ListsServers, HasInfo,
}
use molten.Record.Pdo
use molten.Record.Cache
use molten.Record.Mysqli
use molten.Record.Mongo
use molten.Record.Client
use molten.Record.Curl

module _ (t : Tracer) (f : Frame t.mode.Context) where
  pub convert-Total :
      length f.function ≤ 58 → Total (convert_args_to_string t.php f.function f.args)
  convert-Total short =
      let r = convert_args_to_string-fits t.php f.function f.args short in (r.0, r.1)

  driver_notes-Total :
      (name source : Option Bytes) → IsShort name → Total (Pdo.driver_notes t f name source)
  driver_notes-Total none source h = (_, refl)
  driver_notes-Total (some name) source h = rw (lt→ltb _ _ h) (_, refl)

  dbh_notes-Total : (dbh : Option PdoDbh) → IsShortDbh dbh → Total (Pdo.dbh_notes t f dbh)
  dbh_notes-Total none h = (_, refl)
  dbh_notes-Total (some dbh) h = driver_notes-Total dbh.driver_name dbh.data_source h

  info_text-Total :
      (v : Option Zval) (unknown : Bytes) → IsText v → Total (Pdo.info_text t f v unknown)
  info_text-Total none unknown h = (_, refl)
  info_text-Total (some (Zval.string s)) unknown h = (_, refl)
  info_text-Total (some v) unknown h = absurd h

  info_message-Total :
      (info : Option Arr) (unknown : Bytes)
      → HasText info
      → Total (Pdo.info_message t f info unknown)
  info_message-Total none unknown h = (_, refl)
  info_message-Total (some info) unknown h =
      bind-Total _ _ (info_text-Total (find_index 2 info) unknown h) (λ s. (_, refl))

  error_message-Total :
      (v : Option Zval) (unknown : Bytes) → TellsText v → Total (Pdo.error_message t f v unknown)
  error_message-Total none unknown h = (_, refl)
  error_message-Total (some v) unknown h = info_message-Total (as_array (some v)) unknown h

  error_info-Total :
      (unknown : Bytes)
      → TellsText (t.php.call_method f.object (codes "errorInfo"))
      → Total (Pdo.error_info t f unknown)
  unfolding Pdo.error_info
  error_info-Total unknown h = elim (Bool-cases (is_false f.ret)) [
    | inl e ↦ rw e (error_message-Total _ unknown h)
    | inr e ↦ rw e (none, refl)
  ]

  pub pdo_notes-Total :
      IsShortDbh (t.php.pdo_dbh f.object)
      → TellsText (t.php.call_method f.object (codes "errorInfo"))
      → Total (Pdo.pdo_notes t f)
  unfolding Pdo.pdo_notes
  pdo_notes-Total short text =
      bind-Total _ _ (dbh_notes-Total (t.php.pdo_dbh f.object) short)
        (λ about. bind-Total _ _ (error_info-Total (codes "unknown") text) (λ error. (_, refl)))

  stmt_driver_notes-Total :
      (name source : Option Bytes)
      → HasSource name source
      → Total (Pdo.stmt_driver_notes t f name source)
  stmt_driver_notes-Total none source h = (_, refl)
  stmt_driver_notes-Total (some name) source (short, (s, e)) = rw (lt→ltb _ _ short, e) (_, refl)

  stmt_notes-Total : (stmt : Option PdoStmt) → IsSourcedStmt stmt → Total (Pdo.stmt_notes t f stmt)
  stmt_notes-Total none h = (_, refl)
  stmt_notes-Total (some stmt) h =
      bind-Total _ _ (stmt_dbh_notes-Total stmt.dbh h) (λ about. (_, refl))
    where
      stmt_dbh_notes-Total :
          (dbh : Option PdoDbh) → IsSourcedDbh dbh → Total (Pdo.stmt_dbh_notes t f dbh)
      stmt_dbh_notes-Total none k = (_, refl)
      stmt_dbh_notes-Total (some dbh) k = stmt_driver_notes-Total dbh.driver_name dbh.data_source k

  pub pdo_statement_notes-Total :
      IsSourcedStmt (t.php.pdo_stmt f.object)
      → TellsText (t.php.call_method f.object (codes "errorInfo"))
      → Total (Pdo.pdo_statement_notes t f)
  unfolding Pdo.pdo_statement_notes
  pdo_statement_notes-Total sourced text =
      bind-Total _ _ (stmt_notes-Total (t.php.pdo_stmt f.object) sourced)
        (λ about. bind-Total _ _ (error_info-Total (codes "unkown") text) (λ error. (_, refl)))

  pub redis_notes-Total : length f.function ≤ 58 → Total (Cache.redis_notes t f)
  unfolding Cache.redis_notes
  redis_notes-Total short = bind-Total _ _ (convert-Total short) (λ value. (_, refl))

  pub memcached_common_call-Total :
      (before : Result (List Annotation))
      → Total before
      → length f.function ≤ 58
      → Total (Cache.memcached_common_call t f before)
  unfolding Cache.memcached_common_call
  memcached_common_call-Total before h short =
      bind-Total _ _ h (λ first. bind-Total _ _ (convert-Total short) (λ value. (_, refl)))

  entry_notes-Total :
      (at : Option ℕ) (entry : Option Arr) → IsPair entry → Total (Cache.entry_notes t f at entry)
  entry_notes-Total at none h = (_, refl)
  entry_notes-Total at (some a) h = rw (lt→ltb 1 (length (values a)) h) (_, refl)

  servers_loop-Total :
      (at : Option ℕ) (vs : List Zval)
      → All (λ v. IsPair (as_array (some v))) vs
      → Total (Cache.servers_loop t f at vs)
  unfolding Cache.servers_loop
  servers_loop-Total at [] h = (_, refl)
  servers_loop-Total at (v ∷ more) (pair, pairs) =
      bind-Total _ _ (entry_notes-Total at (as_array (some v)) pair)
        (λ r. bind-Total _ _ (servers_loop-Total r.1 more pairs) (λ rest. (_, refl)))

  pub servers-Total :
      (args : List Zval)
      → ListsServers args
      → Total (arg 0 args >>= λ servers. Cache.servers_notes t f (as_array (some servers)))
  unfolding arg
  servers-Total [] h = absurd h
  servers-Total (servers ∷ more) h = servers_notes-Total (as_array (some servers)) h
    where
      servers_notes-Total : (a : Option Arr) → AllPairs a → Total (Cache.servers_notes t f a)
      servers_notes-Total none k = (_, refl)
      servers_notes-Total (some a) k = servers_loop-Total none (values a) k
