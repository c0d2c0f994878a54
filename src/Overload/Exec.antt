-- ===== src/Overload/Exec.antt =====
-- What a traced call of curl_exec leaves behind: one span in the log, and the stack of spans as it was.
use molten.Common.{
  ℕ, suc, ◌≡◌, refl, sym, ap, ◌∙◌, true, Option, none, some, List, [], ◌∷◌, ◌++◌, map, All, Bytes,
  codes, ℤ, Result, ok, ◌<◌, length,
}
use mathlib.Core.Path.{subst}
use molten.Zval.{Zval, array, resource, Arr, empty, as_array}
use molten.Stack.Contents.{Holds, top_element-Holds, pop-Holds}
use molten.Log.{add_span, max_spans}
use molten.Log.Spans.{add_span-kept}
use molten.Span.{an_client}
use molten.Span.Builder.{annotate}
use molten.Span.Contract.{
  BuilderLaws, below_id, annotate-id, annotate-parent, retrieve_parent-below,
}
use molten.SpanContext.Defs.{SpanMode, SpanLaws, Opens, retrieve_span_id, pop_span_context}
use molten.Chain.{ChainKey}
use molten.Chain.Outgoing.{keys_of, first_text, pass_value, add_keys, add_http_trace_header}
use molten.Record.Curl.{index_find, build_curl_bannotation, info_value, array_answer}
use molten.Record.Errors.{raw_string}
use molten.Record.Safe.{Total, bind-Total, HasInfo}
use molten.Record.Total.Web.{curl_notes-Total}
use molten.Overload.{
  Request, S, parent_if, add_lines, with_lines, build_header, response_notes, bare_frame,
  after_exec, open_span, close_span, molten_curl_exec, molten_curl_setopt, to_origin, exec,
}

-- Every key has a value, as `mo_build_chain_header` leaves them but for the ids of the spans, which the
-- open spans give.
abbrev pub HasValue : ChainKey → Type 0
HasValue pck = (v : Bytes) × (pck.val ≡ some v)

first_text-Total : (a b val : Option Bytes) (v : Bytes) → val ≡ some v → Total (first_text a b val)
first_text-Total (some x) b val v e = (x, refl)
first_text-Total none (some x) val v e = (x, refl)
first_text-Total none none val v e = rw e (v, refl)

add_keys-Total :
    (a b : Option Bytes) (keys : List ChainKey) (header : Arr)
    → All HasValue keys
    → Total (add_keys a b keys header)
unfolding add_keys pass_value
add_keys-Total a b [] header h = (header, refl)
add_keys-Total a b (pck ∷ more) header ((v, e), h) =
    bind-Total _ _ (first_text-Total _ _ pck.val v e) (λ value. add_keys-Total a b more _ h)

module _ (r : Request) (sampled : r.is_sampled ≡ true) (values : All HasValue (keys_of r.pch)) where
  open r use {tracer}

  add_lines-Total :
      (o : Option Arr) (option : Zval) (a b : Option Bytes) → Total (add_lines r o option a b)
  unfolding add_http_trace_header
  add_lines-Total none option a b = (option, refl)
  add_lines-Total (some header) option a b =
      rw sampled
        (bind-Total _ _ (add_keys-Total a b (keys_of r.pch) header values) (λ header'. (_, refl)))

  -- The lines are added to the array that was set or to a new one; neither the stack nor the log changes.
  abbrev Keeps : S r → Result (Zval × S r) → Type 0
  Keeps s m =
      (z : Zval) × (s' : S r) × (m ≡ ok (z, s'))
      × (s'.span_stack ≡ s.span_stack)
      × (s'.log ≡ s.log)
      × (s'.ticks ≡ s.ticks)

  with_lines-Keeps :
      (res : ℤ) (o : Option Zval) (a b : Option Bytes) (s : S r)
      → Keeps s (with_lines r res o a b s)
  with_lines-Keeps res none a b s =
      let (z, e) = add_lines-Total (some empty) (array empty) a b in
      rw e (z, s, refl, refl, refl, refl)
  with_lines-Keeps res (some tmp) a b s =
      let (z, e) = add_lines-Total (as_array (some tmp)) tmp a b in
      rw e (z, _, refl, refl, refl, refl)

  module _ (id_of parent_of : Arr → Option Bytes)
      (laws : BuilderLaws tracer.psb id_of parent_of) where
    parent_if-below :
        (s : S r) (c : tracer.mode.Context) (rest : List tracer.mode.Context)
        → Holds s.span_stack (c ∷ rest)
        → parent_if r r.is_sampled s ≡ ok (below_id tracer.mode rest)
    parent_if-below s c rest h =
        rw sampled
          (retrieve_parent-below tracer.psb id_of parent_of laws tracer.mode s.span_stack c rest h)

    build_header-Keeps :
        (res : ℤ) (s : S r) (c : tracer.mode.Context) (rest : List tracer.mode.Context)
        → Holds s.span_stack (c ∷ rest)
        → (s' : S r) × (build_header r res s ≡ ok (some (tracer.mode.span_id c), s'))
          × (s'.span_stack ≡ s.span_stack)
          × (s'.log ≡ s.log)
    unfolding build_header retrieve_span_id molten_curl_setopt
    build_header-Keeps res s c rest h =
        let (z, s1, e, stack, log, ticks) =
          with_lines-Keeps res (index_find res s.curl_header_record) (some (tracer.mode.span_id c))
            (below_id tracer.mode rest) s in
        rw (top_element-Holds h, parent_if-below s c rest h, e) (_, refl, stack, log)

    -- The log has one more span, with the id and the parent.
    abbrev pub AddsSpan : Bytes → Option Bytes → S r → S r → Type 0
    AddsSpan id parent s s' =
        (span : Arr) × (s'.log ≡ add_span s.log span)
        × (id_of span ≡ some id)
        × (parent_of span ≡ parent)

    after_exec-Adds :
        (res : ℤ) (entry : ℕ) (value : Zval) (s : S r) (c : tracer.mode.Context)
        (rest : List tracer.mode.Context)
        → Holds s.span_stack (c ∷ rest)
        → Total
            (build_curl_bannotation tracer (bare_frame r s) (r.clock s.ticks) (resource res) true)
        → (s' : S r) × (after_exec r res (some (tracer.mode.span_id c)) entry value s ≡ ok s')
          × Holds s'.span_stack rest
          × AddsSpan (tracer.mode.span_id c) (below_id tracer.mode rest) s s'
    unfolding after_exec pop_span_context
    after_exec-Adds res entry value s c rest h (notes, e) =
        let (stack', p, h') = pop-Holds h in
        let time = r.clock s.ticks in
        let span =
          tracer.psb.start_span (codes "php_curl") tracer.pct.trace_id (tracer.mode.span_id c)
            (below_id tracer.mode rest) entry time tracer.pct an_client in
        let list = notes ++ response_notes r time (raw_string value) in
        rw
          (
            retrieve_parent-below tracer.psb id_of parent_of laws tracer.mode s.span_stack c rest h,
            e,
            p,
          )
          (
            _,
            refl,
            h',
            (
              annotate tracer.psb tracer.pct list span,
              refl,
              annotate-id tracer.psb id_of parent_of laws tracer.pct list span
                  ∙ laws.start-id _ _ _ _ _ _ _ _,
              annotate-parent tracer.psb id_of parent_of laws tracer.pct list span
                  ∙ laws.start-parent _ _ _ _ _ _ _ _,
            ),
          )

-- The first id, if there is one.
abbrev pub first_id : List Bytes → Option Bytes
first_id [] = none
first_id (id ∷ more) = some id

below_id-first : (m : SpanMode) (cs : List m.Context) → below_id m cs ≡ first_id (map m.span_id cs)
below_id-first m [] = refl
below_id-first m (c ∷ cs) = refl

module _ (r : Request) (spans : SpanLaws r.tracer.mode) where
  open r use {tracer}

  -- A sampled request opens a span before `curl_exec` does anything else.
  open_span-Opens :
      (n : ℕ) (s : S r) (xs : List tracer.mode.Context)
      → r.is_sampled ≡ true
      → Holds s.span_stack xs
      → spans.Ready (suc n) s.step xs
      → (entry : ℕ) × (s1 : S r) × (open_span r r.is_sampled s ≡ ok (entry, s1))
        × ((o : Opens tracer.mode s1.span_stack xs) × (tracer.mode.span_id o.context
              ≡ spans.new_id s.step xs))
        × (s1.log ≡ s.log)
  open_span-Opens n s xs sampled h ready =
      let (step', stack', o, e, is_new, ready') = spans.push-ok n s.step s.span_stack xs h ready in
      rw (sampled, e) (_, _, refl, (o, is_new), refl)

  close_span-sampled :
      r.is_sampled ≡ true
      → (res : ℤ) (id : Option Bytes) (entry : ℕ) (value : Zval) (s : S r)
      → close_span r r.is_sampled res id entry value s ≡ after_exec r res id entry value s
  close_span-sampled sampled res id entry value s = rw sampled refl

  -- A sampled call of `curl_exec` whose arguments PHP cannot parse opens a span and leaves it open: the
  -- stack has one more span over those that were there, and the log none.
  pub molten_curl_exec-left_open :
      (n : ℕ) (value : Zval) (s : S r) (xs : List tracer.mode.Context)
      → r.is_sampled ≡ true
      → Holds s.span_stack xs
      → spans.Ready (suc n) s.step xs
      → (s' : S r) × (molten_curl_exec r none value s ≡ ok s')
        × Opens tracer.mode s'.span_stack xs
        × (s'.log ≡ s.log)
  unfolding molten_curl_exec
  molten_curl_exec-left_open n value s xs sampled h ready =
      let (entry, s1, e, (o, is_new), log) = open_span-Opens n s xs sampled h ready in
      rw e (s1, refl, o, log)

  -- A sampled call of `curl_exec` with a handle, at any stack of open spans: it comes to its end, the log
  -- keeps one more span behind the others, of the id that the next span gets and with the id of the span
  -- that was open, if any, as its parent, and the open spans are those that were open before. The
  -- conditions: the log keeps fewer than 300 spans, there is room for `n` more spans
  -- besides this one, the keys of the header have values, `curl_getinfo` tells url and code, and the
  -- format keeps the ids that it is given.
  pub molten_curl_exec-Adds :
      (id_of parent_of : Arr → Option Bytes) (n : ℕ) (res : ℤ) (value : Zval) (s : S r)
      (xs : List tracer.mode.Context) (kept : List Arr)
      → BuilderLaws tracer.psb id_of parent_of
      → r.is_sampled ≡ true
      → All HasValue (keys_of r.pch)
      → HasInfo (λ name.
        info_value name
          (array_answer (tracer.php.call_function (codes "curl_getinfo") (resource res ∷ []))))
      → Holds s.span_stack xs
      → spans.Ready (suc n) s.step xs
      → s.log.spans ≡ some kept
      → length kept < max_spans
      → (s' : S r) × (ys : List tracer.mode.Context) × (span : Arr) × (molten_curl_exec r
            (some res)
            value
            s
          ≡ ok s')
        × Holds s'.span_stack ys
        × (map tracer.mode.span_id ys ≡ map tracer.mode.span_id xs)
        × (s'.log.spans ≡ some (kept ++ (span ∷ [])))
        × (id_of span ≡ some (spans.new_id s.step xs))
        × (parent_of span ≡ first_id (map tracer.mode.span_id xs))
  unfolding molten_curl_exec
  molten_curl_exec-Adds id_of parent_of n res value s xs kept laws sampled values info h ready keeps
        room =
      let (entry, s1, e1, (o, is_new), log1) = open_span-Opens n s xs sampled h ready in
      let (s2, e2, stack2, log2) =
        build_header-Keeps r sampled values id_of parent_of laws res s1 o.context o.rest o.holds in
      let s3 = to_origin r (exec res) s2 in
      let h3 : Holds s3.span_stack (o.context ∷ o.rest) =
        subst (λ st. Holds st (o.context ∷ o.rest)) (sym stack2) o.holds in
      let notes =
        curl_notes-Total tracer (bare_frame r s3) (r.clock s3.ticks) (resource res) info in
      let (s4, e4, h4, (span, log4, id, parent)) =
        after_exec-Adds r sampled values id_of parent_of laws res entry value s3 o.context o.rest h3
          notes in
      (
        s4,
        o.rest,
        span,
        rw (e1, e2) (close_span-sampled sampled res _ entry value s3 ∙ e4),
        h4,
        o.same_ids,
        ap (λ l. l.spans) (log4 ∙ ap (λ l. add_span l span) (log2 ∙ log1))
            ∙ add_span-kept s.log span kept keeps room,
        id ∙ ap some is_new,
        parent ∙ below_id-first tracer.mode o.rest ∙ ap first_id o.same_ids,
      )
