-- ===== src/Execute/Core.antt =====
-- One call under the executor, traced or not.
use mathlib.Core.Path.{ap₂, subst}
use molten.Common.{
  ℕ, suc, ◌+◌, ◌-◌, ◌≡◌, sym, ap, ◌∙◌, ◌⊎◌, inl, inr, Bool, true, false, Option, none, some, List,
  ◌∷◌, ◌++◌, arith, Bool-cases, Result, ok,
}
use molten.Stack.Contents.{Holds}
use molten.SpanContext.Defs.{SpanLaws}
use molten.Intercept.{hit}
use molten.Intercept.Hit.{hit-ok}
use molten.Execute.{
  ZendFunction, call, Calls, Frame, Module, Globals, add_spans, frame_build, match_intercept,
  around, execute_core, frame_entry, frame_function, frame_class,
}
use molten.Execute.Trace.{calls_all, Named, Emits, skipped, traced, RecordLaws}
use molten.Execute.Books.{
  innermost, add_spans-append, tracing, innermost-same, leave-ok, Outcome, uncons, BodyRuns,
}

module _ {E S R : Type 0} (m : Module E S R) (laws : SpanLaws m.mode) (rec : RecordLaws m) where
  open laws use {Ready}

  -- A call that is not traced runs its body, and that is all.
  pub around-none :
      (zf : ZendFunction) (k : ℕ) (body : Calls) (bails : Bool)
      (original : Globals m → Result (Bool × Globals m)) (n : ℕ) (g : Globals m)
      (xs : List m.mode.Context)
      → BodyRuns m laws rec body bails original
      → ((tracing m laws rec g ≡ false) ⊎ (hit m.pit zf.scope zf.function_name ≡ ok none))
      → Holds g.span_stack xs
      → Ready (suc (calls_all body + n)) g.step xs
      → rec.Fine g.php
      → Outcome m laws rec n g xs
          (around m none zf k original g)
          (Emits m (tracing m laws rec g) (innermost m laws rec xs) (call zf k body bails))
  unfolding around
  around-none zf k body bails original n g xs runs why h r fine =
      let (b, g', spans, e, ran, out) = runs n g xs h (laws.Ready-down _ _ _ r) fine in
      (b, g', spans, e, ran, rw out.1 (skipped why out.2))

  -- A call that is traced runs its body under a new span, and hands its own spans to the log when
  -- the body has ended.
  pub around-some :
      (zf : ZendFunction) (k : ℕ) (body : Calls) (bails : Bool)
      (original : Globals m → Result (Bool × Globals m)) (n : ℕ) (g : Globals m)
      (xs : List m.mode.Context) (e : E)
      → BodyRuns m laws rec body bails original
      → tracing m laws rec g ≡ true
      → hit m.pit zf.scope zf.function_name ≡ ok (some e)
      → Holds g.span_stack xs
      → Ready (suc (calls_all body + n)) g.step xs
      → rec.Fine g.php
      → Outcome m laws rec n g xs
          (around m (some e) zf k original g)
          (Emits m (tracing m laws rec g) (innermost m laws rec xs) (call zf k body bails))
  unfolding around frame_build
  around-some zf k body bails original n g xs e runs on hits h r fine =
      let (step', s1, o, p, is_new, r1) =
        laws.push-ok (calls_all body + n) g.step g.span_stack xs h r in
      let g1 : Globals m = record g { step = step'; span_stack = s1; ticks = g.ticks + 1 } in
      let (b, g2, spans, q, ran, out) = runs n g1 (o.context ∷ o.rest) o.holds r1 fine in
      let (c', xs', shape, same, rest_same) =
        uncons m laws rec g2.span_stack ran.open_spans o.context o.rest ran.holds ran.same_ids in
      let held = subst (Holds g2.span_stack) shape ran.holds in
      let frame : Frame = record {
        type = frame_entry;
        level = g.level;
        function = frame_function zf;
        class_name = frame_class zf;
        arg_count = k;
        entry_time = m.clock g.ticks;
        exit_time = 0;
      } in
      let (s2, frame', php', own, l, fe, k2, recorded, fine') =
        leave-ok m laws rec e frame g2 c' xs' held ran.fine in
      let parent_same = innermost-same m laws rec xs' xs (rest_same ∙ o.same_ids) in
      let recorded' : m.record_spans e frame' (some (m.mode.span_id o.context))
            (innermost m laws rec xs) g2.php
          ≡ ok (php', own) =
        ap₂ (λ i j. m.record_spans e frame' (some i) j g2.php) (sym same) (sym parent_same)
        ∙ recorded in
      (
        b,
        record g2 {
          ticks = g2.ticks + 1;
          span_stack = s2;
          log = add_spans m g2.log own;
          php = php';
        },
        spans ++ own,
        rw (p, q, l),
        record {
          open_spans = xs';
          holds = k2;
          same_ids = rest_same ∙ o.same_ids;
          ready =
              laws.Ready-pop n g2.step c' xs' (subst (λ ys. Ready n g2.step ys) shape ran.ready);
          level = ran.level;
          in_request = ran.in_request;
          is_sampled = ran.is_sampled;
          log =
              ap (λ l. add_spans m l own) ran.log
              ∙ sym (add_spans-append m laws rec g.log spans own);
          fine = fine';
        },
        rw out.1 (
            traced e (m.mode.span_id o.context) frame' g2.php php' own on hits
              (record {
                type = ap (λ (f : Frame). f.type) fe;
                function = ap (λ (f : Frame). f.function) fe;
                class_name = ap (λ (f : Frame). f.class_name) fe;
                args = ap (λ (f : Frame). f.arg_count) fe;
              })
              out.2 recorded'),
      )

  -- A call of `zf`, whatever the tables say of it.
  pub core-ok :
      (zf : ZendFunction) (k : ℕ) (body : Calls) (bails : Bool)
      (original : Globals m → Result (Bool × Globals m)) (n : ℕ) (g : Globals m)
      (xs : List m.mode.Context)
      → Named zf
      → BodyRuns m laws rec body bails original
      → Holds g.span_stack xs
      → Ready (suc (calls_all body + n)) g.step xs
      → rec.Fine g.php
      → Outcome m laws rec n g xs
          (execute_core m zf k original g)
          (Emits m (tracing m laws rec g) (innermost m laws rec xs) (call zf k body bails))
  unfolding execute_core match_intercept
  core-ok zf k body bails original n g xs named runs h r fine =
      let g1 : Globals m = record g { level = g.level + 1 } in
      let finish : (e : Option E)
          → match_intercept m g1 zf ≡ ok e
          → Outcome m laws rec n g1 xs (around m e zf k original g1)
              (Emits m (tracing m laws rec g) (innermost m laws rec xs) (call zf k body bails))
          → Outcome m laws rec n g xs (execute_core m zf k original g)
              (Emits m (tracing m laws rec g) (innermost m laws rec xs) (call zf k body bails)) =
        λ e em (b, g', spans, eq, ran, out). (
          b,
          record g' { level = g'.level - 1 },
          spans,
          rw (em, eq),
          record {
            open_spans = ran.open_spans;
            holds = ran.holds;
            same_ids = ran.same_ids;
            ready = ran.ready;
            level = omega (arith, ran.level);
            in_request = ran.in_request;
            is_sampled = ran.is_sampled;
            log = ran.log;
            fine = ran.fine;
          },
          out,
        ) in
      elim (Bool-cases (tracing m laws rec g)) [
        | inr off ↦
            finish none (rw off)
              (around-none zf k body bails original n g1 xs runs (inl off) h r fine)
        | inl on ↦
            let (found, hits) = hit-ok m.pit zf.scope zf.function_name named in
            finish found (rw on hits) (traced_or_not found hits on)
      ]
    where
      traced_or_not :
          (e : Option E)
          → hit m.pit zf.scope zf.function_name ≡ ok e
          → tracing m laws rec g ≡ true
          → Outcome m laws rec n
              (record g { level = g.level + 1 })
              xs
              (around m e zf k original (record g { level = g.level + 1 }))
              (Emits m (tracing m laws rec g) (innermost m laws rec xs) (call zf k body bails))
      traced_or_not none hits on =
          around-none zf k body bails original n (record g { level = g.level + 1 }) xs runs
            (inr hits) h r fine
      traced_or_not (some e) hits on =
          around-some zf k body bails original n (record g { level = g.level + 1 }) xs e runs on
            hits h r fine
