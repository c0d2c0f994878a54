-- ===== src/SpanContext/Level.antt =====
-- Span contexts with USE_LEVEL_ID: an element of the stack is the id of a span and the number that
-- its next child gets, and a child's id is its parent's with that number behind it.
use molten.Common.{
  ℕ, suc, ◌+◌, ◌<◌, ◌≡◌, refl, true, Option, none, some, List, [], ◌∷◌, ◌++◌, All, Bytes, codes,
  decimal, arith, Result, ok, ◌>>=◌,
}
use molten.Stack.{Stack, push, top_element, set_top}
use molten.Stack.Contents.{Holds, push-Holds, top_element-Holds, set_top-Holds, empty-Holds}
use molten.Ids.{build_span_id_level}
use molten.Ids.Level.{build_span_id_level-fits}
use molten.SpanContext.Defs.{SpanMode, SpanLaws, Opens}

-- `mo_span_context`
pub record Context : Type 0 where
  pub span_id : Bytes
  pub span_count : ℕ

-- The context of a span that has no child yet.
abbrev pub opened : Bytes → Context
opened id = record { span_id = id; span_count = 1 }

-- `parent_node->span_count++`
abbrev pub count_child : Context → Context
count_child c = record c { span_count = c.span_count + 1 }

-- The part of `push_span_context` that looks at the parent: the new id, and the stack with the
-- child counted.
unfoldable pub next_id : Option Context → Stack Context → Result (Bytes × Stack Context)
next_id none s = do id ← build_span_id_level none 0; ok (id, s)
next_id (some parent) s = do
  id ← build_span_id_level (some parent.span_id) parent.span_count
  ok (id, set_top s (count_child parent))

-- `push_span_context`
unfoldable pub push_span_context : ℕ → Stack Context → Result (ℕ × Stack Context)
push_span_context step s = do
  parent ← top_element s
  (id, s1) ← next_id parent s
  (_, s') ← push s1 (opened id)
  ok (step, s')

abbrev pub counted : Option Context → Stack Context → Stack Context
counted none s = s
counted (some parent) s = set_top s (count_child parent)

-- `push_span_context_with_id`: the stack keeps the pointer that it is given.
unfoldable pub push_span_context_with_id : Stack Context → Bytes → Result (Stack Context)
push_span_context_with_id s id = do
  parent ← top_element s
  (_, s') ← push (counted parent s) (opened id)
  ok s'

abbrev pub level_mode : SpanMode
level_mode = record {
  Context = Context;
  span_id = λ c. c.span_id;
  push_span_context = push_span_context;
  push_span_context_with_id = push_span_context_with_id;
  shares_ids = true;
}

-- The first span of a stack has the id `1`.
pub push_span_context-root :
    (step : ℕ) (s : Stack Context)
    → Holds s []
    → (s' : Stack Context) × (push_span_context step s ≡ ok (step, s'))
      × Holds s' (opened (codes "1") ∷ [])
unfolding push_span_context next_id build_span_id_level
push_span_context-root step s h =
    let (s', e, k) = push-Holds s (opened (codes "1")) [] h in (s', rw ((empty-Holds h).0, e), k)

-- A child's id is its parent's id, a dot, and the number of the child, if that is below 100000; the
-- parent counts it.
pub push_span_context-child :
    (step : ℕ) (s : Stack Context) (parent : Context) (xs : List Context)
    → Holds s (parent ∷ xs)
    → parent.span_count < 100000
    → (s' : Stack Context) × (push_span_context step s ≡ ok (step, s'))
      × Holds s' (
          opened (parent.span_id ++ codes "." ++ decimal parent.span_count)
          ∷ count_child parent
          ∷ xs)
unfolding push_span_context next_id
push_span_context-child step s parent xs h small =
    let id = parent.span_id ++ codes "." ++ decimal parent.span_count in
    let h1 = set_top-Holds h (count_child parent) in
    let (s', e, k) =
      push-Holds (set_top s (count_child parent)) (opened id) (count_child parent ∷ xs) h1 in
    (
      s',
      rw (top_element-Holds h, build_span_id_level-fits parent.span_id parent.span_count small, e),
      k,
    )

-- The id of a child of the innermost span, or of the first one.
abbrev pub child_id : List Context → Bytes
child_id [] = codes "1"
child_id (parent ∷ xs) = parent.span_id ++ codes "." ++ decimal parent.span_count

-- Room for `n` more children everywhere.
abbrev pub Room : ℕ → List Context → Type 0
Room n xs = (n < 100000) × All (λ c. c.span_count + n < 100001) xs

Room-down :
    (n : ℕ) (xs : List Context)
    → All (λ c. c.span_count + suc n < 100001) xs
    → All (λ c. c.span_count + n < 100001) xs
Room-down n [] r = tt
Room-down n (c ∷ xs) (h, r) = (omega arith, Room-down n xs r)

level-push-ok :
    (n step : ℕ) (s : Stack Context) (xs : List Context)
    → Holds s xs
    → Room (suc n) xs
    → (step' : ℕ) × (s' : Stack Context) × (o : Opens level_mode s' xs) × (push_span_context step s
        ≡ ok (step', s'))
      × (o.context.span_id ≡ child_id xs)
      × Room n (o.context ∷ o.rest)
level-push-ok n step s [] h r =
    let (s', e, k) = push_span_context-root step s h in
    (
      step,
      s',
      record { context = opened (codes "1"); rest = []; holds = k; same_ids = refl },
      e,
      refl,
      (omega (arith, r), (omega (arith, r), tt)),
    )
level-push-ok n step s (parent ∷ xs) h r =
    let (s', e, k) = push_span_context-child step s parent xs h (omega (arith, r)) in
    (
      step,
      s',
      record {
        context = opened (parent.span_id ++ codes "." ++ decimal parent.span_count);
        rest = count_child parent ∷ xs;
        holds = k;
        same_ids = refl;
      },
      e,
      refl,
      (omega (arith, r), (omega (arith, r), (omega (arith, r), Room-down n xs r.1.1))),
    )

-- A span that comes with its id: the one below it counts it as a child.
level-push_id-ok :
    (n step : ℕ) (s : Stack Context) (id : Bytes) (xs : List Context)
    → Holds s xs
    → Room (suc n) xs
    → (s' : Stack Context) × (o : Opens level_mode s' xs) × (push_span_context_with_id s id ≡ ok s')
      × (o.context.span_id ≡ id)
      × Room n (o.context ∷ o.rest)
unfolding push_span_context_with_id
level-push_id-ok n step s id [] h r =
    let (s', e, k) = push-Holds s (opened id) [] h in
    (
      s',
      record { context = opened id; rest = []; holds = k; same_ids = refl },
      rw ((empty-Holds h).0, e),
      refl,
      (omega (arith, r), (omega (arith, r), tt)),
    )
level-push_id-ok n step s id (parent ∷ xs) h r =
    let (s', e, k) =
      push-Holds (set_top s (count_child parent)) (opened id) (count_child parent ∷ xs)
        (set_top-Holds h (count_child parent)) in
    (
      s',
      record { context = opened id; rest = count_child parent ∷ xs; holds = k; same_ids = refl },
      rw (top_element-Holds h, e),
      refl,
      (omega (arith, r), (omega (arith, r), (omega (arith, r), Room-down n xs r.1.1))),
    )

pub level_laws : SpanLaws level_mode
level_laws = record {
  Ready = λ n step xs. Room n xs;
  new_id = λ step xs. child_id xs;
  push-ok = level-push-ok;
  push_id-ok = level-push_id-ok;
  Ready-down = λ n step xs r. (omega (arith, r), Room-down n xs r.1);
  Ready-pop = λ n step c xs r. (r.0, r.1.1);
}
