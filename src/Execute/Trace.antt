-- ===== src/Execute/Trace.antt =====
-- What a program's run should put into the log: a declarative account of the spans and of how each is
-- placed under the span that encloses it.
use molten.Common.{
  ℕ, suc, ◌+◌, ◌≡◌, ◌≢◌, ◌⊎◌, Bool, true, false, ◌||◌, Option, none, some, List, [], ◌++◌, Bytes,
  ok,
}
use molten.Intercept.{hit}
use molten.Execute.{
  ZendFunction, Call, call, Calls, nil, cons, Frame, frame_function, frame_class, frame_exit,
  Module, is_replaced,
}

-- The number of calls in a program: an upper bound of the spans that it opens.
unfoldable mutual
  pub calls : Call → ℕ
  calls (call zf n body bails) = suc (calls_all body)

  pub calls_all : Calls → ℕ
  calls_all nil = 0
  calls_all (cons c cs) = calls c + calls_all cs

-- A function that belongs to a class has a name.
abbrev pub Named : ZendFunction → Type 0
Named zf = zf.scope ≢ none → zf.function_name ≢ none

-- The functions of a program have names, and none is the curl_exec that molten replaces.
unfoldable mutual
  pub AllNamed : Call → Type 0
  AllNamed (call zf n body bails) =
      (Named zf × (is_replaced zf.scope zf.function_name ≡ false)) × AllNamedIn body

  pub AllNamedIn : Calls → Type 0
  AllNamedIn nil = Unit
  AllNamedIn (cons c cs) = AllNamed c × AllNamedIn cs

module _ {E S R : Type 0} (m : Module E S R) where
  -- The frame that is recorded for a call of `zf`.
  pub record IsFrameOf (zf : ZendFunction) (arg_count : ℕ) (frame : Frame) : Type 0 where
    pub type : frame.type ≡ frame_exit
    pub function : frame.function ≡ frame_function zf
    pub class_name : frame.class_name ≡ frame_class zf
    pub args : frame.arg_count ≡ arg_count

  -- `Emits on parent c bailed spans`: with tracing `on`, and the span `parent` open, the call `c` hands
  -- the list `spans` to the log, and `bailed` says whether it ended in a bailout.
  mutual
    pub data Emits (on : Bool) : Option Bytes → Call → Bool → List S → Type 0 where
      skipped :
          {parent : Option Bytes} {zf : ZendFunction} {n : ℕ} {body : Calls} {bails b : Bool}
          {spans : List S}
          → ((on ≡ false) ⊎ (hit m.pit zf.scope zf.function_name ≡ ok none))
          → EmitsAll on parent body b spans
          → Emits on parent (call zf n body bails) (b || bails) spans
      traced :
          {parent : Option Bytes} {zf : ZendFunction} {n : ℕ} {body : Calls} {bails b : Bool}
          {spans : List S} (e : E) (id : Bytes) (frame : Frame) (php php' : R) (own : List S)
          → on ≡ true
          → hit m.pit zf.scope zf.function_name ≡ ok (some e)
          → IsFrameOf zf n frame
          → EmitsAll on (some id) body b spans
          → m.record_spans e frame (some id) parent php ≡ ok (php', own)
          → Emits on parent (call zf n body bails) (b || bails) (spans ++ own)

    pub data EmitsAll (on : Bool) : Option Bytes → Calls → Bool → List S → Type 0 where
      done : {parent : Option Bytes} → EmitsAll on parent nil false []
      stops :
          {parent : Option Bytes} {c : Call} {cs : Calls} {spans : List S}
          → Emits on parent c true spans
          → EmitsAll on parent (cons c cs) true spans
      goes_on :
          {parent : Option Bytes} {c : Call} {cs : Calls} {b : Bool} {spans more : List S}
          → Emits on parent c false spans
          → EmitsAll on parent cs b more
          → EmitsAll on parent (cons c cs) b (spans ++ more)

  -- What the record functions owe to the executor: in a state that is fine for them they do not fault, and
  -- leave one that is.
  pub record RecordLaws : Type 1 where
    pub Fine : R → Type 0
    pub record-ok :
        (e : E) (frame : Frame) (id parent : Option Bytes) (php : R)
        → Fine php
        → (php' : R) × (own : List S) × (m.record_spans e frame id parent php ≡ ok (php', own))
          × Fine php'
