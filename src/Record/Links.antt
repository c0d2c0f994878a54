-- ===== src/Record/Links.antt =====
-- What a record function does to the log: whether it adds a span, and the ids of that.
use molten.Common.{
  ℕ, ◌+◌, ◌≤◌, ◌≡◌, refl, sym, ◌∙◌, inl, inr, Bool, true, false, Bool-cases, Option, none, some,
  List, ◌∷◌, [], Bytes, codes, bytes_eq, length, ltb, leb, is_some, arith, if◌then◌else◌, ℤ, Result,
  ok, to_uint64,
}
use molten.Zval.{resource, Arr}
use molten.Log.{ChainLog, add_span}
use molten.Span.{an_client}
use molten.Span.Builder.{Annotation, annotate}
use molten.Span.Contract.{
  BuilderLaws, below_id, links, annotate-id, annotate-parent, retrieve_parent-below,
}
use molten.SpanContext.Defs.{retrieve_span_id}
use molten.Stack.Contents.{Holds, top_element-Holds}
use molten.Intercept.Tables.{
  Recorder, curl_multi_add_handle, curl_multi_remove_handle, pdo, pdo_statement, redis,
  memcached_common, memcached_add_server, memcached_add_servers, mysqli_connect,
  mysqli_real_connect, mysqli_query, mysqli_oo_query, mysqli_common, mysqli_stmt_exe_oo,
  mysqli_stmt_prepare_procedural, mysqli_stmt_exe_procedural, mongodb, mongodb_server,
  guzzle_request, es_request, default_es,
}
use molten.Record.Engine.{Frame, State, Tracer, record_span, layered}
use molten.Record.Safe.{Total, IsExtra, IsSafe, enough, exe_oo_adds, remove_adds, adds}
use molten.Record.Total.{
  pdo_notes-Total, pdo_statement_notes-Total, redis_notes-Total, memcached_common_call-Total,
  servers-Total,
}
use molten.Record.Total.Sql.{
  connect_notes-Total, real_connect_notes-Total, query_notes-Total, prepare_notes-Total,
  exe_notes-Total,
}
use molten.Record.Total.Web.{
  mongodb_notes-Total, mongodb_server_notes-Total, es_notes-Total, curl_notes-Total,
}
use molten.Record.Pdo
use molten.Record.Cache
use molten.Record.Cache.{long_answer}
use molten.Record.Mysqli
use molten.Record.Mongo
use molten.Record.Client
use molten.Record.Curl
use molten.Record.Dispatch.{record_with}

-- `array_merge_recursive` leaves what only the first array has.
abbrev pub MergeKeeps : (Arr → Option Bytes) → (Arr → Option Bytes) → (Arr → Arr → Arr) → Type 0
MergeKeeps id_of parent_of merge =
    (span extra : Arr)
    → id_of extra ≡ none
    → parent_of extra ≡ none
    → (id_of (merge span extra) ≡ id_of span) × (parent_of (merge span extra) ≡ parent_of span)

module _ (t : Tracer) (id_of parent_of : Arr → Option Bytes)
    (laws : BuilderLaws t.psb id_of parent_of) where
  -- What becomes of the log: it has one more span, whose id is that of the open span context, and whose
  -- parent is the id of the one below it, if there is one; or it is as it was.
  abbrev pub Adds :
      t.mode.Context → List t.mode.Context → Bool → ChainLog Arr → ChainLog Arr → Type 0
  Adds c rest true log log' =
      (span : Arr) × (log' ≡ add_span log span)
      × (id_of span ≡ some (t.mode.span_id c))
      × (parent_of span ≡ below_id t.mode rest)
  Adds c rest false log log' = log' ≡ log

  abbrev pub Linked :
      t.mode.Context → List t.mode.Context → Bool → ChainLog Arr → Result State → Type 0
  Linked c rest added log r = (s' : State) × (r ≡ ok s') × Adds c rest added log s'.log

  module _ (f : Frame t.mode.Context) (c : t.mode.Context) (rest : List t.mode.Context)
      (h : Holds f.span_stack (c ∷ rest)) where
    record_span-Linked :
        (name : Bytes) (notes : Result (List Annotation)) (s : State)
        → Total notes
        → Linked c rest true s.log (record_span t name notes f s)
    unfolding record_span
    record_span-Linked name notes s (list, e) =
        let r =
          links t.psb id_of parent_of laws t.mode name t.pct f.span_stack f.entry_time f.exit_time
            an_client list c rest h in
        rw (r.1, e) (_, refl, (annotate t.psb t.pct list r.0, refl, r.2, r.3))

    -- A function that returns at once where there are too few arguments.
    guarded :
        (n : ℕ) (s : State) (r : Result State)
        → (n ≤ length f.args → Linked c rest true s.log r)
        → Linked c rest (leb n (length f.args)) s.log (if ltb (length f.args) n then ok s else r)
    guarded n s r k = elim (Bool-cases (ltb (length f.args) n)) [
      | inl e ↦
          let few : leb n (length f.args) ≡ false = ground arith in rw (e, few) (s, refl, refl)
      | inr e ↦
          let enough : leb n (length f.args) ≡ true = ground arith in
          rw (e, enough) (k (ground arith))
    ]

    query-Linked :
        (procedural : Bool) (s : State)
        → Linked c rest
            (enough t f (Mysqli.sql_place t f procedural + 1))
            s.log
            (Mysqli.db_query_record t f procedural s)
    unfolding Mysqli.db_query_record Mysqli.common_record
    query-Linked procedural s =
        guarded _ s _ (λ k. record_span-Linked _ _ s (query_notes-Total t f procedural k))

    prepare-Linked :
        (procedural : Bool) (s : State)
        → Linked c rest
            (enough t f (Mysqli.sql_place t f procedural + 1))
            s.log
            (Mysqli.mysqli_stmt_prepare_common_record t f procedural s)
    unfolding Mysqli.mysqli_stmt_prepare_common_record Mysqli.common_record
    prepare-Linked procedural s =
        guarded _ s _ (λ k. record_span-Linked _ _ s (prepare_notes-Total t f procedural k))

    exe-Linked :
        (procedural : Bool) (s : State)
        → Mysqli.sql_place t f procedural ≤ length f.args
        → Linked c rest true s.log (Mysqli.mysqli_stmt_exe_common_record t f procedural s)
    unfolding Mysqli.mysqli_stmt_exe_common_record Mysqli.common_record
    exe-Linked procedural s k = record_span-Linked _ _ s (exe_notes-Total t f procedural k)

    exe_oo-Linked :
        (s : State) → Linked c rest (exe_oo_adds t f) s.log (Mysqli.mysqli_stmt_exe_oo_record t f s)
    unfolding Mysqli.mysqli_stmt_exe_oo_record
    exe_oo-Linked s = elim (Bool-cases (bytes_eq f.function (codes "prepare"))) [
      | inl e ↦ rw e (prepare-Linked false (Mysqli.mysql_layered t f s))
      | inr e ↦ rw e (exe-Linked false (Mysqli.mysql_layered t f s) (omega arith))
    ]

    connect-Linked :
        (s : State) → Linked c rest (enough t f 1) s.log (Mysqli.mysqli_connect_record t f s)
    unfolding Mysqli.mysqli_connect_record Mysqli.mysqli_connect_common_record Mysqli.common_record
    connect-Linked s =
        let s1 = Mysqli.mysql_layered t f s in
        guarded 1 s1 (record_span t f.function (Mysqli.connect_notes t f) f s1)
          (λ k. record_span-Linked _ _ s1 (connect_notes-Total t f k))

    real_connect-Linked :
        (s : State) → Linked c rest (enough t f 2) s.log (Mysqli.mysqli_real_connect_record t f s)
    unfolding Mysqli.mysqli_real_connect_record Mysqli.common_record
    real_connect-Linked s =
        guarded 2 s _ (λ k.
          record_span-Linked _ _ (Mysqli.mysql_layered t f s) (real_connect_notes-Total t f k))

    common-Linked : (s : State) → Linked c rest true s.log (Mysqli.mysqli_common_record t f s)
    unfolding Mysqli.mysqli_common_record Mysqli.common_record
    common-Linked s = record_span-Linked _ _ (Mysqli.mysql_layered t f s) (_, refl)

    mongodb-Linked :
        length f.function ≤ 58
        → (s : State) → Linked c rest (enough t f 1) s.log (Mongo.mongodb_record t f s)
    unfolding Mongo.mongodb_record
    mongodb-Linked short s =
        guarded 1 s _ (λ k. record_span-Linked _ _ (layered _ _ s) (mongodb_notes-Total t f short))

    mongodb_server-Linked :
        length f.function ≤ 58
        → (s : State) → Linked c rest (enough t f 1) s.log (Mongo.mongodb_server_record t f s)
    unfolding Mongo.mongodb_server_record
    mongodb_server-Linked short s =
        guarded 1 s _
          (λ k. record_span-Linked _ _ (layered _ _ s) (mongodb_server_notes-Total t f short))

    curl_span-Linked :
        (ch start : ℤ) (s : State)
        → Total (Curl.build_curl_bannotation t f f.exit_time (resource ch) true)
        → Linked c rest true s.log (Curl.curl_span t f ch start s)
    unfolding Curl.curl_span retrieve_span_id
    curl_span-Linked ch start s (list, e) =
        let span =
          t.psb.start_span (codes "php_curl_multi") t.pct.trace_id (t.mode.span_id c)
            (below_id t.mode rest) (to_uint64 start) f.exit_time t.pct an_client in
        rw
          (
            top_element-Holds h,
            retrieve_parent-below t.psb id_of parent_of laws t.mode f.span_stack c rest h,
            e,
          )
          (
            _,
            refl,
            (
              annotate t.psb t.pct list span,
              refl,
              annotate-id t.psb id_of parent_of laws t.pct list span
                  ∙ laws.start-id _ _ _ _ _ _ _ _,
              annotate-parent t.psb id_of parent_of laws t.pct list span
                  ∙ laws.start-parent _ _ _ _ _ _ _ _,
            ),
          )

    if_started-Linked :
        (start : Option ℤ) (ch : ℤ) (s : State)
        → Total (Curl.build_curl_bannotation t f f.exit_time (resource ch) true)
        → Linked c rest (is_some start) s.log (Curl.if_started t f start ch s)
    if_started-Linked none ch s k = (s, refl, refl)
    if_started-Linked (some start) ch s k = curl_span-Linked ch start s k

    removed-Linked :
        (ch : Option ℤ) (s : State)
        → IsSafe t id_of parent_of curl_multi_remove_handle f
        → Linked c rest (remove_adds ch s) s.log (Curl.removed t f ch s)
    removed-Linked none s k = (s, refl, refl)
    removed-Linked (some ch) s k =
        if_started-Linked _ ch s (curl_notes-Total t f f.exit_time (resource ch) (k (resource ch)))

    added-log : (ch : Option ℤ) (s : State) → (Curl.cached t f ch s).log ≡ s.log
    added-log none s = refl
    added-log (some ch) s = refl

    module _ (keeps : MergeKeeps id_of parent_of t.php.merge_recursive) where
      merged-Linked :
          (extra : Option Arr) (notes : Result (List Annotation)) (s : State)
          → f.span_extra ≡ extra
          → IsExtra t id_of parent_of extra
          → Total notes
          → Linked c rest true s.log (Client.record_merged t notes f s)
      unfolding Client.record_merged Client.merge_span_extra
      merged-Linked none notes s is_extra k (list, e) = absurd k
      merged-Linked (some extra) notes s is_extra (no_id, no_parent) (list, e) =
          let r =
            links t.psb id_of parent_of laws t.mode f.function t.pct f.span_stack f.entry_time
              f.exit_time an_client [] c rest h in
          let merged = t.php.merge_recursive r.0 extra in
          let kept = keeps r.0 extra no_id no_parent in
          rw (r.1, is_extra, e)
            (
              _,
              refl,
              (
                annotate t.psb t.pct list merged,
                refl,
                annotate-id t.psb id_of parent_of laws t.pct list merged
                    ∙ kept.0
                    ∙ sym (annotate-id t.psb id_of parent_of laws t.pct [] r.0)
                    ∙ r.2,
                annotate-parent t.psb id_of parent_of laws t.pct list merged
                    ∙ kept.1
                    ∙ sym (annotate-parent t.psb id_of parent_of laws t.pct [] r.0)
                    ∙ r.3,
              ),
            )

      -- Whichever record function runs for a frame whose span context is open, whatever the engine
      -- answers within `IsSafe`: it comes to its end, and the log has one more span, with the id of the
      -- open context and, as its parent, the id of the one below it, if there is one; or, exactly where
      -- `adds` is false, the log is as it was. The conditions: the format keeps the ids that it is given,
      -- and the merging of two arrays keeps what only the first one has.
      pub record_with-Linked :
          (r : Recorder) (s : State)
          → IsSafe t id_of parent_of r f
          → Linked c rest (adds t r f s) s.log (record_with t r f s)
      unfolding record_with Curl.curl_multi_add_handle_record Curl.curl_multi_remove_handle_record
          Pdo.pdo_record Pdo.pdo_statement_record Cache.redis_record Cache.memcached_common_record
          Cache.memcached_add_server_record Cache.memcached_add_servers_record
          Mysqli.mysqli_query_record Mysqli.mysqli_oo_query_record
          Mysqli.mysqli_stmt_prepare_procedural_record Mysqli.mysqli_stmt_exe_procedural_record
          Client.guzzle_request_record Client.es_request_record Client.default_es_record
      record_with-Linked curl_multi_add_handle s k =
          (Curl.cached t f (Curl.second_handle f.args) s, refl, added-log _ s)
      record_with-Linked curl_multi_remove_handle s k = removed-Linked _ s k
      record_with-Linked pdo s k =
          record_span-Linked _ _ (layered Pdo.database_layer Pdo.mysql_cn s)
            (pdo_notes-Total t f k.0 k.1)
      record_with-Linked pdo_statement s k =
          record_span-Linked _ _ (layered Pdo.database_layer Pdo.mysql_cn s)
            (pdo_statement_notes-Total t f k.0 k.1)
      record_with-Linked redis s k =
          record_span-Linked _ _ (layered Cache.cache_layer Cache.jedis_cn s)
            (redis_notes-Total t f k)
      record_with-Linked memcached_common s k =
          record_span-Linked _ _ (layered Cache.cache_layer Cache.memcached_cn s)
            (memcached_common_call-Total t f _ (_, refl) k)
      record_with-Linked memcached_add_server s k =
          record_span-Linked _ _ (layered Cache.cache_layer Cache.memcached_cn s)
            (memcached_common_call-Total t f _ (_, refl) k)
      record_with-Linked memcached_add_servers s k =
          record_span-Linked _ _ (layered Cache.cache_layer Cache.memcached_cn s)
            (memcached_common_call-Total t f _ (servers-Total t f f.args k.1) k.0)
      record_with-Linked mysqli_connect s k = connect-Linked s
      record_with-Linked mysqli_real_connect s k = real_connect-Linked s
      record_with-Linked mysqli_query s k = query-Linked true (Mysqli.mysql_layered t f s)
      record_with-Linked mysqli_oo_query s k = query-Linked false (Mysqli.mysql_layered t f s)
      record_with-Linked mysqli_common s k = common-Linked s
      record_with-Linked mysqli_stmt_exe_oo s k = exe_oo-Linked s
      record_with-Linked mysqli_stmt_prepare_procedural s k =
          prepare-Linked true (Mysqli.mysql_layered t f s)
      record_with-Linked mysqli_stmt_exe_procedural s k =
          exe-Linked true (Mysqli.mysql_layered t f s) k
      record_with-Linked mongodb s k = mongodb-Linked k s
      record_with-Linked mongodb_server s k = mongodb_server-Linked k s
      record_with-Linked guzzle_request s k = merged-Linked _ _ s refl k (_, refl)
      record_with-Linked es_request s k = merged-Linked _ _ s refl k.0 (es_notes-Total t f k.1)
      record_with-Linked default_es s k = merged-Linked _ _ s refl k (_, refl)
