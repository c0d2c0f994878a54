-- ===== src/Chain.antt =====
-- molten_chain.c: the ids that a request comes with, and the main span of a request.
pub mod Header
pub mod Main
pub mod Outgoing
pub mod Propagation
pub mod Whole
use molten.Common.{
  ℕ, ◌+◌, Bool, true, false, Option, none, some, List, [], ◌∷◌, ◌++◌, Bytes, codes, if◌then◌else◌,
  ltb, take, ℤ, Result, ok, fault, ◌>>=◌,
}
use molten.Ids.{rand64hex, sprintf}
use molten.Control.{ServerVar, missing, string, other}
use molten.Stack.{Stack}
use molten.SpanContext.Defs.{SpanMode, pop_span_context, retrieve_span_id, retrieve_parent_span_id}
use molten.Zval
use molten.Zval.{Arr, Zval}
use molten.Span.{ChainNames, an_server, ba_normal, ba_path, ba_error}
use molten.Span.Builder.{SpanBuilder, start_with, Annotation, annotation_ex, annotate}
use molten.Log.{ChainLog, add_span}

-- `mo_chain_key_t`: the fields that are read.
pub record ChainKey : Type 0 where
  pub name : Bytes
  pub receive_key : Bytes
  pub pass_key : Bytes
  pub val : Option Bytes

-- `mo_chain_header_t`; the table `chain_header_key` has the five keys in this order.
pub record ChainHeader : Type 0 where
  pub trace_id : ChainKey
  pub span_id : ChainKey
  pub parent_span_id : ChainKey
  pub sampled : ChainKey
  pub flags : ChainKey
  pub ip : Bytes
  pub port : ℤ

-- `MOLTEN_HEADER_PREFIX` and `MOLTEN_REC_HEADER_PREFIX`, of which a build has one of two pairs.
pub record Prefixes : Type 0 where
  pub pass : Bytes
  pub receive : Bytes

abbrev new_key : Prefixes → Bytes → Bytes → Bytes → ChainKey
new_key p name receive_key pass_key = record {
  name = name;
  receive_key = p.receive ++ receive_key;
  pass_key = p.pass ++ pass_key;
  val = none;
}

-- `mo_init_chain_header`
unfoldable pub init_header : Prefixes → Bytes → ℤ → ChainHeader
init_header p ip port = record {
  trace_id = new_key p (codes "trace_id") (codes "TRACEID") (codes "TraceId");
  span_id = new_key p (codes "span_id") (codes "SPANID") (codes "SpanId");
  parent_span_id = new_key p (codes "parent_span_id") (codes "PARENTSPANID") (codes "ParentSpanId");
  sampled = new_key p (codes "sampled") (codes "SAMPLED") (codes "Sampled");
  flags = new_key p (codes "flags") (codes "FLAGS") (codes "Flags");
  ip = ip;
  port = port;
}

-- The loop over the keys: a key gets the text of its server variable.
abbrev pub set_val : ServerVar → ChainKey → ChainKey
set_val missing pck = pck
set_val (string s) pck = record pck { val = some s }
set_val other pck = pck

abbrev pub receive : (Bytes → ServerVar) → ChainKey → ChainKey
receive server pck = set_val (server pck.receive_key) pck

unfoldable pub receive_all : (Bytes → ServerVar) → ChainHeader → ChainHeader
receive_all server pch = record pch {
  trace_id = receive server pch.trace_id;
  span_id = receive server pch.span_id;
  parent_span_id = receive server pch.parent_span_id;
  sampled = receive server pch.sampled;
  flags = receive server pch.flags;
}

-- A server variable is read as a text, where there is one.
abbrev pub text_or {ℓ} : {A : Type ℓ} → ServerVar → A → (Bytes → A) → Result A
text_or missing old f = ok old
text_or (string s) old f = ok (f s)
text_or other old f = fault

abbrev pub or_text : Option Bytes → Bytes → Bytes
or_text none s = s
or_text (some v) s = v

abbrev pub or_random : Option Bytes → List ℕ → Result Bytes
or_random none randoms = rand64hex randoms
or_random (some v) randoms = ok v

-- What the header has in the end; the sampled flag and the flags have defaults.
abbrev pub complete : ChainHeader → Bytes → Bytes → ℤ → ChainHeader
complete pch trace addr port = record pch {
  trace_id = record pch.trace_id { val = some trace };
  sampled = record pch.sampled { val = some (or_text pch.sampled.val (codes "1")) };
  flags = record pch.flags { val = some (or_text pch.flags.val (codes "0")) };
  ip = addr;
  port = port;
}

module _ (m : SpanMode) where
  -- The parent's context is pushed if the request names one.
  abbrev pub push_parent : Option Bytes → Stack m.Context → Result (Stack m.Context)
  push_parent none s = ok s
  push_parent (some id) s = m.push_span_context_with_id s id

  abbrev pub push_span : Option Bytes → ℕ → Stack m.Context → Result (ℕ × Stack m.Context)
  push_span none step s = m.push_span_context step s
  push_span (some id) step s = do s' ← m.push_span_context_with_id s id; ok (step, s')

  -- `mo_build_chain_header`, with libc's `atoi`, the server variables, the values of `random()` and the
  -- counter of the ids.
  unfoldable pub build_header :
      (Bytes → ℤ)
      → (Bytes → ServerVar)
      → Bool
      → Bytes
      → List ℕ
      → ℕ
      → Stack m.Context
      → ChainHeader
      → Result (ℕ × Stack m.Context × ChainHeader)
  build_header atoi server is_cli ip randoms step span_stack pch = do
    addr ← text_or (server (codes "SERVER_ADDR")) (take 16 ip) (take 16)
    port ← text_or (server (codes "SERVER_PORT")) pch.port atoi
    let pch1 = if is_cli then pch else receive_all server pch
    trace ← or_random pch1.trace_id.val randoms
    s1 ← push_parent pch1.parent_span_id.val span_stack
    (step', s2) ← push_span pch1.span_id.val step s1
    ok (step', s2, complete pch1 trace addr port)
