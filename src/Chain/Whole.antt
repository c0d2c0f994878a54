-- ===== src/Chain/Whole.antt =====
-- A web request from its beginning to its end: its header, the program under the executor, and the main
-- span.
use molten.Common.{ℕ, Bool, false, List, [], Bytes, ℤ, Result, ok, ◌>>=◌}
use molten.Control.{ServerVar}
use molten.Stack.{Stack}
use molten.Execute.{Call, Module, Globals, execute}
use molten.Chain.{ChainHeader, Prefixes, init_header, or_text, build_header}
use molten.Chain.Main.{Request, chain_dtor}
use molten.Zval.{Arr}
use molten.Span.{ChainNames}
use molten.Span.Builder.{SpanBuilder}
use molten.Log.{ChainLog}

-- What the spans of a request are built from, once its header is there.
abbrev pub names_of : Bytes → ChainHeader → ChainNames
names_of service_name pch = record {
  service_name = service_name;
  ip = pch.ip;
  port = pch.port;
  trace_id = or_text pch.trace_id.val [];
}

-- The surroundings of a request: libc's `atoi`, the server variables, the address of the host, the values
-- of `random()`, the prefixes of the build, and the old address and port.
pub record Surroundings : Type 0 where
  pub atoi : Bytes → ℤ
  pub server : Bytes → ServerVar
  pub ip : Bytes
  pub randoms : List ℕ
  pub prefixes : Prefixes
  pub old_ip : Bytes
  pub old_port : ℤ
  pub service_name : Bytes

module _ {E R : Type 0} (m : Module E Arr R)
    (curl_exec : Globals m → Result (Bool × Globals m)) where
  -- A sampled web request: `mo_chain_ctor`, the program, `mo_chain_dtor` at `now`.
  unfoldable pub whole :
      SpanBuilder
      → Surroundings
      → Request
      → ℕ
      → Call
      → Globals m
      → Result (Bool × ChainLog Arr × Stack m.mode.Context)
  whole psb w pct now c g = do
    (step', stack', pch) ←
        build_header m.mode w.atoi w.server false w.ip w.randoms g.step g.span_stack
          (init_header w.prefixes w.old_ip w.old_port)
    (bailed, g') ← execute m curl_exec c (record g { step = step'; span_stack = stack' })
    (log', last) ←
        chain_dtor psb m.mode w.server pch (names_of w.service_name pch) pct now g'.span_stack
          g'.log
    ok (bailed, log', last)
