-- ===== src/Execute/Books.antt =====
-- What a run of the executor leaves, its books before and after, and the steps that close a frame.
use molten.Common.{
  ℕ, ◌+◌, ◌≡◌, refl, Bool, ◌&&◌, ◌||◌, Option, none, some, List, [], ◌∷◌, ◌++◌, map, Bytes, Result,
  ok,
}
use molten.Stack.{Stack}
use molten.Stack.Contents.{Holds, top_element-Holds, sec_element-Holds, sec_element-one, pop-Holds}
use molten.SpanContext.Defs.{SpanLaws, pop_span_context, retrieve_span_id, retrieve_parent_span_id}
use molten.Log.{ChainLog, add_span}
use molten.Execute.{
  Calls, Frame, Module, Globals, add_spans, record_frame, frame_destroy, leave, frame_exit,
}
use molten.Execute.Trace.{calls_all, EmitsAll, RecordLaws}

module _ {E S R : Type 0} (m : Module E S R) (laws : SpanLaws m.mode) (rec : RecordLaws m) where
  open laws use {Ready}

  -- The id of the innermost open span.
  abbrev pub innermost : List m.mode.Context → Option Bytes
  innermost [] = none
  innermost (c ∷ xs) = some (m.mode.span_id c)

  pub add_spans-append :
      (log : ChainLog S) (xs ys : List S)
      → add_spans m log (xs ++ ys) ≡ add_spans m (add_spans m log xs) ys
  unfolding add_spans
  add_spans-append log [] ys = refl
  add_spans-append log (x ∷ xs) ys = add_spans-append (add_span log x) xs ys

  -- A run from `g`, with the spans `xs` open and room for `n` more after it, that ends by `bailed` in
  -- `g'` and hands `spans` to the log.
  pub record Ran (n : ℕ) (g : Globals m) (xs : List m.mode.Context) (g' : Globals m)
      (spans : List S) : Type 0 where
    pub open_spans : List m.mode.Context
    pub holds : Holds g'.span_stack open_spans
    pub same_ids : map m.mode.span_id open_spans ≡ map m.mode.span_id xs
    pub ready : Ready n g'.step open_spans
    pub level : g'.level ≡ g.level
    pub in_request : g'.in_request ≡ g.in_request
    pub is_sampled : g'.is_sampled ≡ g.is_sampled
    pub log : g'.log ≡ add_spans m g.log spans
    pub fine : rec.Fine g'.php

  abbrev pub tracing : Globals m → Bool
  tracing g = g.is_sampled && g.in_request

  -- The same ids have the same innermost one.
  pub innermost-same :
      (xs ys : List m.mode.Context)
      → map m.mode.span_id xs ≡ map m.mode.span_id ys
      → innermost xs ≡ innermost ys
  innermost-same [] [] h = refl
  innermost-same [] (y ∷ ys) h = cc
  innermost-same (x ∷ xs) [] h = cc
  innermost-same (x ∷ xs) (y ∷ ys) h = cc

  pub retrieve_parent-Holds :
      (s : Stack m.mode.Context) (c : m.mode.Context) (xs : List m.mode.Context)
      → Holds s (c ∷ xs)
      → retrieve_parent_span_id m.mode s ≡ ok (innermost xs)
  unfolding retrieve_parent_span_id
  retrieve_parent-Holds s c [] h = rw (sec_element-one h)
  retrieve_parent-Holds s c (x ∷ xs) h = rw (sec_element-Holds h)

  pub retrieve-Holds :
      (s : Stack m.mode.Context) (c : m.mode.Context) (xs : List m.mode.Context)
      → Holds s (c ∷ xs)
      → retrieve_span_id m.mode s ≡ ok (some (m.mode.span_id c))
  unfolding retrieve_span_id
  retrieve-Holds s c xs h = rw (top_element-Holds h)

  pub pop-span-Holds :
      (s : Stack m.mode.Context) (c : m.mode.Context) (xs : List m.mode.Context)
      → Holds s (c ∷ xs)
      → (s' : Stack m.mode.Context) × (pop_span_context m.mode s ≡ ok s') × Holds s' xs
  unfolding pop_span_context
  pop-span-Holds s c xs h = let (s', e, k) = pop-Holds h in (s', rw e, k)

  -- Leaving a traced call records its spans under the ids on the stack, and closes its span.
  pub leave-ok :
      (e : E) (frame : Frame) (g : Globals m) (c : m.mode.Context) (xs : List m.mode.Context)
      → Holds g.span_stack (c ∷ xs)
      → rec.Fine g.php
      → (s' : Stack m.mode.Context) × (frame' : Frame) × (php' : R) × (own : List S) × (leave m e
            frame g
          ≡ ok (record g {
            ticks = g.ticks + 1;
            span_stack = s';
            log = add_spans m g.log own;
            php = php';
          }))
        × (frame' ≡ record frame { type = frame_exit; exit_time = m.clock g.ticks })
        × Holds s' xs
        × (m.record_spans e frame' (some (m.mode.span_id c)) (innermost xs) g.php ≡ ok (php', own))
        × rec.Fine php'
  unfolding leave record_frame frame_destroy
  leave-ok e frame g c xs h fine =
      let (s', p, k) = pop-span-Holds g.span_stack c xs h in
      let frame' : Frame = record frame { type = frame_exit; exit_time = m.clock g.ticks } in
      let (php', own, q, fine') =
        rec.record-ok e frame' (some (m.mode.span_id c)) (innermost xs) g.php fine in
      (
        s',
        frame',
        php',
        own,
        rw (retrieve-Holds g.span_stack c xs h, retrieve_parent-Holds g.span_stack c xs h, q, p),
        refl,
        k,
        q,
        fine',
      )

  -- What a run from `g` of something that hands spans to the log comes to.
  abbrev pub Outcome :
      ℕ
      → Globals m
      → List m.mode.Context
      → Result (Bool × Globals m)
      → (Bool → List S → Type 0)
      → Type 0
  Outcome n g xs r Spans =
      (b : Bool) × (g' : Globals m) × (spans : List S) × (r ≡ ok (b, g'))
      × Ran n g xs g' spans
      × Spans b spans

  -- A context on top, and the others under it, when the ids are known.
  pub uncons :
      (s : Stack m.mode.Context) (ys : List m.mode.Context) (c : m.mode.Context)
      (xs : List m.mode.Context)
      → Holds s ys
      → map m.mode.span_id ys ≡ map m.mode.span_id (c ∷ xs)
      → (c' : m.mode.Context) × (xs' : List m.mode.Context) × (ys ≡ c' ∷ xs')
        × (m.mode.span_id c' ≡ m.mode.span_id c)
        × (map m.mode.span_id xs' ≡ map m.mode.span_id xs)
  uncons s [] c xs h same = cc
  uncons s (y ∷ ys) c xs h same = (y, ys, refl, cc, cc)

  -- What the body of a call hands to the log, and whether the call then ends in a bailout.
  abbrev pub BodyEmits : Bool → Option Bytes → Calls → Bool → Bool → List S → Type 0
  BodyEmits on parent body bails b spans =
      (b0 : Bool) × (b ≡ (b0 || bails)) × EmitsAll m on parent body b0 spans

  -- The original executor, on a body: it may be run with any spans open.
  abbrev pub BodyRuns : Calls → Bool → (Globals m → Result (Bool × Globals m)) → Type 0
  BodyRuns body bails original =
      (n : ℕ) (g : Globals m) (xs : List m.mode.Context)
      → Holds g.span_stack xs
      → Ready (calls_all body + n) g.step xs
      → rec.Fine g.php
      → Outcome n g xs (original g) (BodyEmits (tracing g) (innermost xs) body bails)
