-- ===== src/Record/Total/Web.antt =====
-- The annotations of the record functions for MongoDB, Elasticsearch and curl, made wherever `IsSafe`
-- holds.
use molten.Common.{
  ℕ, ◌≤◌, ◌≡◌, refl, Bool-cases, inl, inr, true, Option, none, some, List, [], ◌∷◌, Bytes, codes,
  length, ok,
}
use molten.Zval.{Zval}
use molten.Span.Builder.{Annotation}
use molten.Record.Engine.{Frame, Tracer}
use molten.Record.Errors.{is_object}
use molten.Record.Args.{convert_args_to_string-fits}
use molten.Record.Safe.{Total, bind-Total, HasInfo}
use molten.Record.Mongo
use molten.Record.Client
use molten.Record.Curl

module _ (t : Tracer) (f : Frame t.mode.Context) where
  source_notes-Total :
      (source : List Annotation) → length f.function ≤ 58 → Total (Mongo.statement_notes t f source)
  source_notes-Total source short =
      let r = convert_args_to_string-fits t.php f.function f.args short in
      bind-Total _ _ (r.0, r.1) (λ value. (_, refl))

  pub mongodb_notes-Total : length f.function ≤ 58 → Total (Mongo.mongodb_notes t f)
  unfolding Mongo.mongodb_notes
  mongodb_notes-Total short = source_notes-Total _ short

  pub mongodb_server_notes-Total : length f.function ≤ 58 → Total (Mongo.mongodb_server_notes t f)
  unfolding Mongo.mongodb_server_notes
  mongodb_server_notes-Total short = source_notes-Total _ short

  module _ (frees : (host : Bytes) → t.php.url_free (t.php.url_parse host) ≡ ok tt) where
    host_notes-Total : (host : Option Bytes) → Total (Client.host_notes t f host)
    host_notes-Total none = (_, refl)
    host_notes-Total (some host) = rw (frees host) (_, refl)

    connection_notes-Total : (c : Option Zval) → Total (Client.connection_notes t f c)
    connection_notes-Total none = (_, refl)
    connection_notes-Total (some c) = host_notes-Total _

    transport_notes-Total : Total (Client.transport_notes t f)
    unfolding Client.transport_notes
    transport_notes-Total =
        elim (Bool-cases (is_object (t.php.read_property f.object (codes "transport")))) [
          | inl e ↦ rw e (connection_notes-Total _)
          | inr e ↦ rw e (_, refl)
        ]

    pub es_notes-Total : Total (Client.es_notes t f)
    unfolding Client.es_notes
    es_notes-Total = bind-Total _ _ transport_notes-Total (λ server. (_, refl))

  to_string-Total : (v : Option Zval) (u : Zval) → v ≡ some u → Total (Curl.to_string t f v)
  to_string-Total v u e = rw e (_, refl)

  outcome-Total :
      (time : ℕ) (error : Option Bytes) (code : Option Zval) (u : Zval)
      → code ≡ some u
      → Total (Curl.outcome t f time error code)
  outcome-Total time none code u e = rw e (_, refl)
  outcome-Total time (some s) code u e = (_, refl)

  pub curl_notes-Total :
      (time : ℕ) (handle : Zval)
      → HasInfo (λ name.
        Curl.info_value name
          (Curl.array_answer (t.php.call_function (codes "curl_getinfo") (handle ∷ []))))
      → Total (Curl.build_curl_bannotation t f time handle true)
  unfolding Curl.build_curl_bannotation
  curl_notes-Total time handle ((url, has_url), (code, has_code)) =
      bind-Total _ _ (to_string-Total _ url has_url)
        (λ s. bind-Total _ _ (outcome-Total time _ _ code has_code) (λ rest. (_, refl)))
