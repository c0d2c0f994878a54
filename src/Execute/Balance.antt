-- ===== src/Execute/Balance.antt =====
-- Whole programs under the executor of molten.c: the level, the stack of open spans and the log.
use mathlib.Core.Path.{ap₂, subst, subst₂}
use molten.Common.{
  ℕ, zero, suc, ◌+◌, ◌≡◌, refl, sym, ap, ◌∙◌, Bool, true, false, ◌&&◌, ◌||◌, List, [], ◌++◌, arith,
  Result, ok, ◌>>=◌,
}
use molten.Stack.Contents.{Holds}
use molten.SpanContext.Defs.{SpanLaws}
use molten.Execute.{
  Call, call, Calls, nil, cons, Module, Globals, add_spans, execute, execute_all, then_bails,
  unless_bailed, execute_core, body_of,
}
use molten.Execute.Trace.{
  calls, calls_all, AllNamed, AllNamedIn, Emits, EmitsAll, done, stops, goes_on, RecordLaws,
}
use molten.Execute.Books.{innermost, add_spans-append, Ran, tracing, innermost-same, Outcome}
use molten.Execute.Core.{core-ok}

module _ {E S R : Type 0} (m : Module E S R) (laws : SpanLaws m.mode) (rec : RecordLaws m)
    (curl_exec : Globals m → Result (Bool × Globals m)) where
  open laws use {Ready}

  -- One run after another.
  Ran-append :
      (n : ℕ) (g g1 g2 : Globals m) (xs : List m.mode.Context) (s1 s2 : List S)
      (ran : Ran m laws rec n g xs g1 s1) (k : ℕ)
      → Ran m laws rec k g1 ran.open_spans g2 s2
      → Ran m laws rec k g xs g2 (s1 ++ s2)
  Ran-append n g g1 g2 xs s1 s2 ran k ran2 = record {
    open_spans = ran2.open_spans;
    holds = ran2.holds;
    same_ids = ran2.same_ids ∙ ran.same_ids;
    ready = ran2.ready;
    level = ran2.level ∙ ran.level;
    in_request = ran2.in_request ∙ ran.in_request;
    is_sampled = ran2.is_sampled ∙ ran.is_sampled;
    fine = ran2.fine;
    log =
        ran2.log
        ∙ ap (λ l. add_spans m l s2) ran.log
        ∙ sym (add_spans-append m laws rec g.log s1 s2);
  }

  Ready-drop : (k n step : ℕ) (xs : List m.mode.Context) → Ready (k + n) step xs → Ready n step xs
  Ready-drop zero n step xs r = subst (λ (j : ℕ). Ready j step xs) (omega arith) r
  Ready-drop (suc k) n step xs r =
      Ready-drop k n step xs
        (laws.Ready-down (k + n) step xs (subst (λ (j : ℕ). Ready j step xs) (omega arith) r))

  -- The calls behind the first one: none of them is made if it bailed out.
  then-ok :
      (c : Call) (cs : Calls) (n : ℕ) (g g1 : Globals m) (xs : List m.mode.Context) (spans : List S)
      (b : Bool)
      → execute m curl_exec c g ≡ ok (b, g1)
      → Emits m (tracing m laws rec g) (innermost m laws rec xs) c b spans
      → (ran : Ran m laws rec (calls_all cs + n) g xs g1 spans)
      → Outcome m laws rec n g1 ran.open_spans
          (execute_all m curl_exec cs g1)
          (EmitsAll m (tracing m laws rec g1) (innermost m laws rec ran.open_spans) cs)
      → Outcome m laws rec n g xs
          (execute m curl_exec c g >>= unless_bailed m (execute_all m curl_exec cs))
          (EmitsAll m (tracing m laws rec g) (innermost m laws rec xs) (cons c cs))
  then-ok c cs n g g1 xs spans true e em ran rest = (true, g1, spans, rw e, weaker, stops em)
    where
      weaker : Ran m laws rec n g xs g1 spans
      weaker = record {
        open_spans = ran.open_spans;
        holds = ran.holds;
        same_ids = ran.same_ids;
        ready = Ready-drop (calls_all cs) n g1.step ran.open_spans ran.ready;
        level = ran.level;
        in_request = ran.in_request;
        is_sampled = ran.is_sampled;
        log = ran.log;
        fine = ran.fine;
      }
  then-ok c cs n g g1 xs spans false e em ran (b, g2, more, e2, ran2, em2) = (
    b,
    g2,
    spans ++ more,
    rw (e, e2),
    Ran-append _ g g1 g2 xs spans more ran n ran2,
    goes_on em (
        subst₂ (λ on p. EmitsAll m on p cs b more) (ap₂ ◌&&◌ ran.is_sampled ran.in_request)
          (innermost-same m laws rec ran.open_spans xs ran.same_ids) em2),
  )

  mutual
    unfolding add_spans execute execute_all calls calls_all AllNamed AllNamedIn

    execute-ok :
        (c : Call) (n : ℕ) (g : Globals m) (xs : List m.mode.Context)
        → AllNamed c
        → Holds g.span_stack xs
        → Ready (calls c + n) g.step xs
        → rec.Fine g.php
        → Outcome m laws rec n g xs
            (execute m curl_exec c g)
            (Emits m (tracing m laws rec g) (innermost m laws rec xs) c)
    execute-ok (call zf k body bails) n g xs named h r fine =
        let own : Globals m → Result (Bool × Globals m) =
          λ g1. then_bails m bails (execute_all m curl_exec body g1) in
        let ran_core =
          core-ok m laws rec zf k body bails own n g xs named.0.0
            (λ n1 g1 xs1 h1 r1 fine1.
              let (b, g2, spans, e, ran, em) = execute_all-ok body n1 g1 xs1 named.1 h1 r1 fine1 in
              (b || bails, g2, spans, rw e, ran, (b, refl, em)))
            h (subst (λ (k : ℕ). Ready k g.step xs) (omega arith) r) fine in
        subst
          (λ b.
            Outcome m laws rec n g xs (execute_core m zf k (body_of m b curl_exec own) g)
              (Emits m (tracing m laws rec g) (innermost m laws rec xs) (call zf k body bails)))
          (sym named.0.1) ran_core

    execute_all-ok :
        (cs : Calls) (n : ℕ) (g : Globals m) (xs : List m.mode.Context)
        → AllNamedIn cs
        → Holds g.span_stack xs
        → Ready (calls_all cs + n) g.step xs
        → rec.Fine g.php
        → Outcome m laws rec n g xs
            (execute_all m curl_exec cs g)
            (EmitsAll m (tracing m laws rec g) (innermost m laws rec xs) cs)
    execute_all-ok nil n g xs named h r fine = (
      false,
      g,
      [],
      refl,
      record {
        open_spans = xs;
        holds = h;
        same_ids = refl;
        ready = subst (λ (k : ℕ). Ready k g.step xs) (omega arith) r;
        level = refl;
        in_request = refl;
        is_sampled = refl;
        log = refl;
        fine = fine;
      },
      done,
    )
    execute_all-ok (cons c cs) n g xs named h r fine =
        let r1 = subst (λ (k : ℕ). Ready k g.step xs) (omega arith) r in
        let (b, g1, spans, e, ran, em) = execute-ok c (calls_all cs + n) g xs named.0 h r1 fine in
        then-ok c cs n g g1 xs spans b e em ran
          (execute_all-ok cs n g1 ran.open_spans named.1 ran.holds ran.ready ran.fine)
