-- ===== src/SpanContext/Random.antt =====
-- Span contexts without USE_LEVEL_ID: an element of the stack is an id, and the ids of new spans are
-- the values of a counter.
use molten.Common.{
  ℕ, ◌+◌, ◌%◌, ◌^◌, ◌<◌, ◌≡◌, refl, false, List, ◌∷◌, Bytes, arith, Result, ok, ◌>>=◌,
}
use molten.Stack.{Stack, push}
use molten.Stack.Contents.{Holds, push-Holds}
use molten.Ids.{build_span_id_random, decimal_int}
use molten.Ids.Level.{build_span_id_random-fits}
use molten.SpanContext.Defs.{SpanMode, SpanLaws}

-- `push_span_context`
unfoldable pub push_span_context : ℕ → Stack Bytes → Result (ℕ × Stack Bytes)
push_span_context step s = do
  (id, step') ← build_span_id_random step
  (_, s') ← push s id
  ok (step', s')

-- `push_span_context_with_id`: the stack gets a copy of the id.
unfoldable pub push_span_context_with_id : Stack Bytes → Bytes → Result (Stack Bytes)
push_span_context_with_id s id = do (_, s') ← push s id; ok s'

abbrev pub random_mode : SpanMode
random_mode = record {
  Context = Bytes;
  span_id = λ id. id;
  push_span_context = push_span_context;
  push_span_context_with_id = push_span_context_with_id;
  shares_ids = false;
}

-- A new span gets the next number as its id, on every stack and at every value of the counter.
pub push_span_context-next :
    (step : ℕ) (s : Stack Bytes) (xs : List Bytes)
    → Holds s xs
    → step < 2 ^ 32
    → (s' : Stack Bytes) × (push_span_context step s ≡ ok ((step + 1) % 2 ^ 32, s'))
      × Holds s' (decimal_int step ∷ xs)
unfolding push_span_context
push_span_context-next step s xs h small =
    let (s', e, k) = push-Holds s (decimal_int step) xs h in
    (s', rw (build_span_id_random-fits step small, e), k)

pub push_span_context_with_id-Holds :
    (s : Stack Bytes) (id : Bytes) (xs : List Bytes)
    → Holds s xs
    → (s' : Stack Bytes) × (push_span_context_with_id s id ≡ ok s') × Holds s' (id ∷ xs)
unfolding push_span_context_with_id
push_span_context_with_id-Holds s id xs h = let (s', e, k) = push-Holds s id xs h in (s', rw e, k)

unfoldable pub random_laws : SpanLaws random_mode
random_laws = record {
  Ready = λ n step xs. step < 2 ^ 32;
  new_id = λ step xs. decimal_int step;
  push-ok = λ n step s xs h small.
      let (s', e, k) = push_span_context-next step s xs h small in
      (
        (step + 1) % 2 ^ 32,
        s',
        record { context = decimal_int step; rest = xs; holds = k; same_ids = refl },
        e,
        refl,
        omega arith,
      );
  push_id-ok = λ n step s id xs h small.
      let (s', e, k) = push_span_context_with_id-Holds s id xs h in
      (s', record { context = id; rest = xs; holds = k; same_ids = refl }, e, refl, small);
  Ready-down = λ n step xs small. small;
  Ready-pop = λ n step c xs small. small;
}
