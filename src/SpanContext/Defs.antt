-- ===== src/SpanContext/Defs.antt =====
-- What the two kinds of span contexts have in common: the operations that a client calls, and what
-- it relies on.
use molten.Common.{ℕ, suc, Bool, ◌≡◌, Option, none, some, List, ◌∷◌, map, Bytes, Result, ok, ◌>>=◌}
use molten.Stack.{Stack, pop, top_element, sec_element, destroy}
use molten.Stack.Contents.{Holds}

-- The elements of the stack, and the two operations that differ. A number is handed through: the
-- counter `step` of molten_util.c. `shares_ids` says that `push_span_context_with_id` keeps the pointer
-- to the id that it is given, and not a copy.
pub record SpanMode : Type 1 where
  pub Context : Type 0
  pub span_id : Context → Bytes
  pub push_span_context : ℕ → Stack Context → Result (ℕ × Stack Context)
  pub push_span_context_with_id : Stack Context → Bytes → Result (Stack Context)
  pub shares_ids : Bool

module _ (m : SpanMode) where
  open m use {Context, span_id}

  -- `pop_span_context`
  unfoldable pub pop_span_context : Stack Context → Result (Stack Context)
  pop_span_context s = do (_, s') ← pop s; ok s'

  -- The id of an element, or NULL for NULL.
  abbrev pub id_or_null : Option Context → Option Bytes
  id_or_null none = none
  id_or_null (some c) = some (span_id c)

  -- `retrieve_span_id` and `retrieve_span_id_4_frame`
  unfoldable pub retrieve_span_id : Stack Context → Result (Option Bytes)
  retrieve_span_id s = do c ← top_element s; ok (id_or_null c)

  -- `retrieve_parent_span_id` and `retrieve_parent_span_id_4_frame`
  unfoldable pub retrieve_parent_span_id : Stack Context → Result (Option Bytes)
  retrieve_parent_span_id s = do c ← sec_element s; ok (id_or_null c)

  -- `destroy_span_context`: the destructor frees the id of each element.
  unfoldable pub destroy_span_context : Stack Context → Result (List Bytes × Stack Context)
  destroy_span_context s = do (gone, s') ← destroy s; ok (map span_id gone, s')

  -- A push opens a span: the stack holds the new context over the old ones, whose ids stay.
  pub record Opens (s : Stack Context) (xs : List Context) : Type 0 where
    pub context : Context
    pub rest : List Context
    pub holds : Holds s (context ∷ rest)
    pub same_ids : map span_id rest ≡ map span_id xs

  -- What a client may rely on. `Ready n step xs` says that `n` more spans can be opened; `new_id` is the
  -- id that a span opened over these gets.
  pub record SpanLaws : Type 1 where
    pub Ready : ℕ → ℕ → List Context → Type 0
    pub new_id : ℕ → List Context → Bytes
    pub push-ok :
        (n step : ℕ) (s : Stack Context) (xs : List Context)
        → Holds s xs
        → Ready (suc n) step xs
        → (step' : ℕ) × (s' : Stack Context) × (o : Opens s' xs) × (m.push_span_context step s
            ≡ ok (step', s'))
          × (span_id o.context ≡ new_id step xs)
          × Ready n step' (o.context ∷ o.rest)
    pub push_id-ok :
        (n step : ℕ) (s : Stack Context) (id : Bytes) (xs : List Context)
        → Holds s xs
        → Ready (suc n) step xs
        → (s' : Stack Context) × (o : Opens s' xs) × (m.push_span_context_with_id s id ≡ ok s')
          × (span_id o.context ≡ id)
          × Ready n step (o.context ∷ o.rest)
    pub Ready-down : (n step : ℕ) (xs : List Context) → Ready (suc n) step xs → Ready n step xs
    pub Ready-pop :
        (n step : ℕ) (c : Context) (xs : List Context) → Ready n step (c ∷ xs) → Ready n step xs
