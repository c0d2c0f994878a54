-- ===== src/Log/Flush.antt =====
-- `mo_chain_log_flush`: the spans of a request are encoded into the buffer, which goes to the sink. The
-- encoding as JSON is PHP's; it may fail.
use molten.Common.{
  ℕ, ◌+◌, ◌^◌, ◌<◌, ◌≡◌, refl, ap, sym, ◌∙◌, Bool, true, false, Option, none, some, List, [], ◌∷◌,
  ◌++◌, map, Bytes, arith, ◌==◌, if◌then◌else◌, length, length-append, length-take, leb, Result, ok,
  fault, ◌>>=◌,
}
use mathlib.Core.List.{append_assoc, append-nil}
use molten.Log.{ChainLog, sink_std, sink_syslog, spans_wrap, spans_break, alloc_log_size, add}
use molten.Log.Buffer.{Fits, written, line_end, add-written}

unfoldable pub concat : List Bytes → Bytes
concat [] = []
concat (s ∷ more) = s ++ concat more

line_end-none : (sink : ℕ) → sink_std < sink → line_end sink ≡ []
line_end-none sink h = let no : leb sink sink_std ≡ false = ground arith in rw no refl

when_break {ℓ} :
    {A : Type ℓ} (k : ℕ) (a b : A) → k ≡ spans_break → (if k == spans_break then a else b) ≡ a
when_break k a b h = rw h refl

abbrev first_or {ℓ} : {A : Type ℓ} → A → List A → A
first_or a [] = a
first_or a (b ∷ more) = b

abbrev rest_of {ℓ} : {A : Type ℓ} → List A → List A
rest_of [] = []
rest_of (b ∷ more) = more

cons_head {ℓ} : {A : Type ℓ} {a b : A} {xs ys : List A} → (a ∷ xs) ≡ (b ∷ ys) → a ≡ b
cons_head {a} e = ap (first_or a) e

cons_tail {ℓ} : {A : Type ℓ} {a b : A} {xs ys : List A} → (a ∷ xs) ≡ (b ∷ ys) → xs ≡ ys
cons_tail e = ap rest_of e

module _ {S : Type 0} where
  -- A text goes into the buffer; without one the flush ends, which `false` says.
  abbrev pub add_text :
      Option Bytes
      → ChainLog S
      → (ChainLog S → Result (Bool × ChainLog S))
      → Result (Bool × ChainLog S)
  add_text none log next = ok (false, log)
  add_text (some s) log next = do log' ← add log s; next log'

  -- The loop over the spans.
  unfoldable pub add_each : (S → Option Bytes) → List S → ChainLog S → Result (Bool × ChainLog S)
  add_each encode [] log = ok (true, log)
  add_each encode (x ∷ more) log = add_text (encode x) log (λ log'. add_each encode more log')

  abbrev pub encode_kept :
      (S → Option Bytes)
      → (List S → Option Bytes)
      → Option (List S)
      → ChainLog S
      → Result (Bool × ChainLog S)
  encode_kept encode encode_all none log =
      if log.output_type == spans_break
      then fault
      else if log.output_type == spans_wrap
      then fault
      else ok (true, log)
  encode_kept encode encode_all (some spans) log =
      if log.output_type == spans_break
      then add_each encode spans log
      else if log.output_type == spans_wrap
      then add_text (encode_all spans) log (λ log'. ok (true, log'))
      else ok (true, log)

  -- What is handed to `mo_log_write` as bytes and their size, if the encoding did not fail, and the log without spans.
  abbrev pub hand_out : Bool × ChainLog S → Option Bytes × ChainLog S
  hand_out (false, log) = (none, record log { spans = none })
  hand_out (true, log) = (some (written log), record log { spans = none })

  -- `mo_chain_log_flush`
  unfoldable pub flush :
      (S → Option Bytes) → (List S → Option Bytes) → ChainLog S → Result (Option Bytes × ChainLog S)
  flush encode encode_all log = do r ← encode_kept encode encode_all log.spans log; ok (hand_out r)

  length-written : (log : ChainLog S) → Fits log → length (written log) ≡ log.alloc_size
  length-written log f = omega (arith, f.whole, f.inside, length-take log.alloc_size log.buf)

  add_each-written :
      (encode : S → Option Bytes) (spans : List S) (texts : List Bytes) (log : ChainLog S)
      → Fits log
      → sink_std < log.sink_type
      → map encode spans ≡ map some texts
      → log.alloc_size + length (concat texts) + alloc_log_size < 2 ^ 31
      → (log' : ChainLog S) × (add_each encode spans log ≡ ok (true, log'))
        × Fits log'
        × (written log' ≡ written log ++ concat texts)
  unfolding add_each concat
  add_each-written encode [] [] log f sink e small = (log, refl, f, sym (append-nil (written log)))
  add_each-written encode [] (s ∷ texts) log f sink e small = cc
  add_each-written encode (x ∷ spans) [] log f sink e small = cc
  add_each-written encode (x ∷ spans) (s ∷ texts) log f sink e small =
      let len = length-append s (concat texts) in
      let (log1, e1, f1, w1, k1) =
        add-written log s f (omega (arith, len)) (λ h. omega (arith, h.0)) in
      let w1' : written log1 ≡ written log ++ s =
        w1
        ∙ ap (λ l. written log ++ s ++ l) (line_end-none log.sink_type sink)
        ∙ append-nil (written log ++ s) in
      let alloc : log1.alloc_size ≡ log.alloc_size + length s = omega (
        arith,
        length-written log1 f1,
        length-written log f,
        ap length w1',
        length-append (written log) s,
      ) in
      let (log2, e2, f2, w2) =
        add_each-written encode spans texts log1 f1 (omega (arith, k1)) (cons_tail e)
          (omega (arith, len, alloc)) in
      (
        log2,
        rw (cons_head e, e1, e2) refl,
        f2,
        w2 ∙ ap (λ l. l ++ concat texts) w1' ∙ append_assoc (written log) s (concat texts),
      )

  -- With the syslog as the sink and one span per encoding: if every span that was kept can be encoded and
  -- the sizes fit an `int`, then `mo_log_write` is given, as bytes with their size, what was in the buffer
  -- and behind it the encodings of all spans in order, and the log is left without spans.
  pub flush-concat :
      (encode : S → Option Bytes) (encode_all : List S → Option Bytes) (log : ChainLog S)
      (spans : List S) (texts : List Bytes)
      → Fits log
      → log.sink_type ≡ sink_syslog
      → log.output_type ≡ spans_break
      → log.spans ≡ some spans
      → map encode spans ≡ map some texts
      → log.alloc_size + length (concat texts) + alloc_log_size < 2 ^ 31
      → (log' : ChainLog S) × (flush encode encode_all log
          ≡ ok (some (written log ++ concat texts), log'))
        × (log'.spans ≡ none)
        × Fits log'
  unfolding flush
  flush-concat encode encode_all log spans texts f sink out kept e small =
      let (log1, e1, f1, w1) =
        add_each-written encode spans texts log f (omega (arith, sink)) e small in
      (
        record log1 { spans = none },
        ap (λ r. r >>= λ x. ok (hand_out x))
              (ap (λ o. encode_kept encode encode_all o log) kept
                ∙ when_break log.output_type (add_each encode spans log) _ out
                ∙ e1)
            ∙ ap (λ t. ok (some t, record log1 { spans = none })) w1,
        refl,
        record { whole = f1.whole; inside = f1.inside },
      )
