-- ===== src/Log/Lifecycle.antt =====
-- molten_log.c: the log of one request, from `mo_chain_log_init` over the spans to `mo_chain_log_flush`.
use molten.Common.{
  ◌*◌, ◌^◌, ◌≤◌, ◌≡◌, refl, ap, ◌∙◌, Option, none, some, List, [], ◌∷◌, map, Bytes, arith, length,
  length-append, length-take, length-replicate, take, ok,
}
use molten.Log.{ChainLog, sink_syslog, spans_break, max_spans, init, add_span, keep_span}
use molten.Log.Buffer.{Fits}
use molten.Log.Spans.{keep_all, keep_all-take}
use molten.Log.Flush.{flush, concat, flush-concat}

map-map :
    {A B C : Type 0} (f : A → B) (g : B → C) (xs : List A)
    → map (λ x. g (f x)) xs ≡ map g (map f xs)
map-map f g [] = refl
map-map f g (x ∷ xs) = ap (λ l. g (f x) ∷ l) (map-map f g xs)

module _ {S : Type 0} where
  unfoldable pub add_all : ChainLog S → List S → ChainLog S
  add_all log [] = log
  add_all log (x ∷ more) = add_all (add_span log x) more

  add_all-keep :
      (log : ChainLog S) (kept more : List S)
      → add_all (record log { spans = some kept }) more
        ≡ record log { spans = some (keep_all kept more) }
  unfolding add_all add_span keep_all
  add_all-keep log kept [] = refl
  add_all-keep log kept (x ∷ more) = add_all-keep log (keep_span kept x) more

  length-concat :
      (enc : S → Bytes) (xs : List S)
      → ((x : S) → length (enc x) ≤ 2 ^ 20)
      → length (concat (map enc xs)) ≤ length xs * 2 ^ 20
  unfolding concat
  length-concat enc [] h = omega arith
  length-concat enc (x ∷ xs) h =
      omega (arith, length-append (enc x) (concat (map enc xs)), h x, length-concat enc xs h)

  -- With the syslog as the sink and one span per encoding: if every span has an encoding of at most 2 ^ 20
  -- bytes, then from the start of a request to its flush `mo_log_write` is given, as bytes with their size,
  -- the encodings of the first 300 spans in order and of no other, whatever an earlier request left in
  -- the log, and the log is left without spans.
  pub flush-add_all :
      (enc : S → Bytes) (encode_all : List S → Option Bytes) (log : ChainLog S) (spans : List S)
      → log.sink_type ≡ sink_syslog
      → log.output_type ≡ spans_break
      → ((x : S) → length (enc x) ≤ 2 ^ 20)
      → (log' : ChainLog S) × (flush (λ x. some (enc x)) encode_all (add_all (init log) spans)
          ≡ ok (some (concat (map enc (take max_spans spans))), log'))
        × (log'.spans ≡ none)
        × Fits log'
  unfolding init
  flush-add_all enc encode_all log spans sink out small =
      let log0 : ChainLog S = record (init log) { spans = some (take max_spans spans) } in
      let kept : add_all (init log) spans ≡ log0 =
        add_all-keep (init log) [] spans
        ∙ ap (λ l. record (init log) { spans = some l }) (keep_all-take spans [] (omega arith)) in
      let fits : Fits log0 = record {
        whole = length-replicate log.total_size 0;
        inside = omega arith;
      } in
      let (log', e, none_left, fits') =
        flush-concat (λ x. some (enc x)) encode_all log0 (take max_spans spans)
          (map enc (take max_spans spans)) fits sink out refl
          (map-map enc some (take max_spans spans))
          (omega
            (arith, length-concat enc (take max_spans spans) small, length-take max_spans spans)) in
      (log', ap (flush (λ x. some (enc x)) encode_all) kept ∙ e, none_left, fits')
