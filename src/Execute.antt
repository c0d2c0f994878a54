-- ===== src/Execute.antt =====
-- The executor that molten.c puts in the place of Zend's, run over the calls that a PHP program makes.
pub mod Trace
pub mod Books
pub mod Core
pub mod Balance
use molten.Common.{
  ℕ, zero, suc, ◌+◌, ◌-◌, Bool, true, false, ◌&&◌, ◌||◌, Option, none, some, List, [], ◌∷◌, ◌++◌,
  Bytes, bytes_eq, codes, if◌then◌else◌, Result, ok, fault, ◌>>=◌,
}
use molten.Stack.{Stack}
use molten.SpanContext.Defs.{SpanMode, pop_span_context, retrieve_span_id, retrieve_parent_span_id}
use molten.Intercept.{Interceptor, hit}
use molten.Log.{ChainLog, add_span}

-- What is read of a `zend_function`: the name of its class, its own name, and, where the class has
-- trait aliases, the name that `zend_resolve_method_name` gives.
pub record ZendFunction : Type 0 where
  pub scope : Option Bytes
  pub function_name : Option Bytes
  pub alias : Option Bytes

-- The calls of a PHP program, as they happen: a function, the number of its arguments, the calls that
-- its body makes in order, and whether the body then bails out (`exit`, a fatal error).
mutual
  pub data Call : Type 0 where
    call : ZendFunction → ℕ → Calls → Bool → Call

  pub data Calls : Type 0 where
    nil : Calls
    cons : Call → Calls → Calls

-- Whether a function is the one that molten has put in the place of curl_exec; in the function table it
-- keeps its own name.
abbrev pub is_replaced : Option Bytes → Option Bytes → Bool
is_replaced none (some name) =
    bytes_eq name (codes "curl_exec") || bytes_eq name (codes "molten_curl_exec")
is_replaced none none = false
is_replaced (some scope) name = false

-- `MO_FRAME_ENTRY`, `MO_FRAME_EXIT`
abbrev pub frame_entry : ℕ
frame_entry = 1

abbrev pub frame_exit : ℕ
frame_exit = 2

-- `mo_frame_t`: the fields that do not point into the engine.
pub record Frame : Type 0 where
  pub type : ℕ
  pub level : ℕ
  pub function : Bytes
  pub class_name : Bytes
  pub arg_count : ℕ
  pub entry_time : ℕ
  pub exit_time : ℕ

-- `smart_string_appends` of a name that may be NULL: the callers test for NULL.
abbrev pub append_name : Bytes → Option Bytes → Bytes
append_name s none = s
append_name s (some name) = s ++ name

-- The names that `frame_build` gathers: a resolved alias goes behind the function's own name.
unfoldable pub frame_function : ZendFunction → Bytes
frame_function zf = append_name (append_name [] zf.function_name) zf.alias

unfoldable pub frame_class : ZendFunction → Bytes
frame_class zf = append_name [] zf.scope

-- The module: the build's kind of span contexts, the tables of the interceptor, the clock in
-- milliseconds at each reading of it, and the record function of an element: for a frame, the open span's
-- id and its parent's, what it hands to `mo_chain_add_span`. It may fault. `R` is what it reads besides
-- and may change: the arguments and the answers of the engine, the caches, the fields of the chain.
pub record Module (E S R : Type 0) : Type 1 where
  pub mode : SpanMode
  pub pit : Interceptor E
  pub clock : ℕ → ℕ
  pub record_spans : E → Frame → Option Bytes → Option Bytes → R → Result (R × List S)

module _ {E S R : Type 0} (m : Module E S R) where
  -- The module globals that the executor reads and writes, the counter `step` of molten_util.c, and
  -- how often the clock was read.
  pub record Globals : Type 0 where
    pub level : ℕ
    pub in_request : Bool
    pub is_sampled : Bool
    pub step : ℕ
    pub ticks : ℕ
    pub span_stack : Stack m.mode.Context
    pub log : ChainLog S
    pub php : R

  -- `frame_build`, and the reading of the clock behind it: the frame, with a span context opened.
  unfoldable pub frame_build : ZendFunction → ℕ → Globals → Result (Frame × Globals)
  frame_build zf arg_count g = do
    (step', stack') ← m.mode.push_span_context g.step g.span_stack
    ok (
      record {
        type = frame_entry;
        level = g.level;
        function = frame_function zf;
        class_name = frame_class zf;
        arg_count = arg_count;
        entry_time = m.clock g.ticks;
        exit_time = 0;
      },
      record g { step = step'; span_stack = stack'; ticks = g.ticks + 1 },
    )

  -- The spans go to the log one by one.
  unfoldable pub add_spans : ChainLog S → List S → ChainLog S
  add_spans log [] = log
  add_spans log (x ∷ more) = add_spans (add_span log x) more

  -- `i_ele->record(&PTG(pit), &frame)` at the exit of the call.
  unfoldable pub record_frame : E → Frame → Globals → Result Globals
  record_frame e frame g = do
    id ← retrieve_span_id m.mode g.span_stack
    parent ← retrieve_parent_span_id m.mode g.span_stack
    (php', spans) ← m.record_spans e frame id parent g.php
    ok (record g { log = add_spans g.log spans; php = php' })

  -- `frame_destroy`
  unfoldable pub frame_destroy : Globals → Result Globals
  frame_destroy g = do
    stack' ← pop_span_context m.mode g.span_stack
    ok (record g { span_stack = stack' })

  -- The decision of `mo_execute_core`: outside a request, or unsampled, nothing is traced.
  unfoldable pub match_intercept : Globals → ZendFunction → Result (Option E)
  match_intercept g zf =
      if g.is_sampled && g.in_request then hit m.pit zf.scope zf.function_name else ok none

  -- What happens when the original executor has come back, by its end or by a bailout, in a call that
  -- is traced.
  unfoldable pub leave : E → Frame → Globals → Result Globals
  leave e frame g = do
    let frame' = record frame { type = frame_exit; exit_time = m.clock g.ticks }
    g1 ← record_frame e frame' (record g { ticks = g.ticks + 1 })
    frame_destroy g1

  -- The element's capture function, which fills caches of the interceptor, is not run here.
  -- The part of `mo_execute_core` round the original executor `original`, which says whether it
  -- ended in a bailout.
  unfoldable pub around :
      Option E
      → ZendFunction
      → ℕ
      → (Globals → Result (Bool × Globals))
      → Globals
      → Result (Bool × Globals)
  around none zf arg_count original g = original g
  around (some e) zf arg_count original g = do
    (frame, g1) ← frame_build zf arg_count g
    (dobailout, g2) ← original g1
    g3 ← leave e frame g2
    ok (dobailout, g3)

  -- `mo_execute_core`: a bailout is caught, and raised again at the end.
  unfoldable pub execute_core :
      ZendFunction → ℕ → (Globals → Result (Bool × Globals)) → Globals → Result (Bool × Globals)
  execute_core zf arg_count original g = do
    let g1 = record g { level = g.level + 1 }
    e ← match_intercept g1 zf
    (dobailout, g2) ← around e zf arg_count original g1
    ok (dobailout, record g2 { level = g2.level - 1 })

  -- A body that bails out at its end, if no call in it has done so.
  abbrev pub then_bails : Bool → Result (Bool × Globals) → Result (Bool × Globals)
  then_bails bails r = do (b, g) ← r; ok (b || bails, g)

  -- After a call: the next ones are made unless it bailed out.
  abbrev pub unless_bailed :
      (Globals → Result (Bool × Globals)) → Bool × Globals → Result (Bool × Globals)
  unless_bailed rest (true, g) = ok (true, g)
  unless_bailed rest (false, g) = rest g

  -- What the original executor runs: the body, or the function in the place of curl_exec.
  abbrev pub body_of :
      Bool
      → (Globals → Result (Bool × Globals))
      → (Globals → Result (Bool × Globals))
      → Globals
      → Result (Bool × Globals)
  body_of true curl_exec body = curl_exec
  body_of false curl_exec body = body

  module _ (curl_exec : Globals → Result (Bool × Globals)) where
    -- A program under the executor, which is called again for every call in a body. A call of curl_exec
    -- runs `molten_curl_exec`, which is given.
    unfoldable mutual
      pub execute : Call → Globals → Result (Bool × Globals)
      execute (call zf arg_count body bails) g =
          execute_core zf arg_count
            (body_of (is_replaced zf.scope zf.function_name) curl_exec
              (λ g1. then_bails bails (execute_all body g1)))
            g

      pub execute_all : Calls → Globals → Result (Bool × Globals)
      execute_all nil g = ok (false, g)
      execute_all (cons c cs) g = execute c g >>= unless_bailed (execute_all cs)
