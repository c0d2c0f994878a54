-- ===== src/Chain/Header.antt =====
-- Which spans are open when a request has begun.
use molten.Common.{
  ℕ, suc, ◌≡◌, ◌≢◌, refl, ap, ◌∙◌, ◌⊎◌, inl, inr, false, Option, none, some, List, [], ◌∷◌, map,
  Bytes, codes, ℤ, take, ok, length,
}
use mathlib.Core.Path.{subst}
use molten.Ids.{rand_uint64}
use molten.Ids.Hex.{hex2b, le_value, rand64hex-rand_uint64}
use molten.Control.{ServerVar, missing, string, other}
use molten.Stack.{Stack}
use molten.Stack.Contents.{Holds}
use molten.SpanContext.Defs.{SpanMode, SpanLaws}
use molten.Chain.{
  ChainKey, ChainHeader, Prefixes, init_header, set_val, receive, receive_all, text_or, or_random,
  push_parent, push_span, build_header, complete,
}

-- The text of a server variable, and a list of at most one text.
abbrev pub received : ServerVar → Option Bytes
received missing = none
received (string s) = some s
received other = none

abbrev pub as_list : Option Bytes → List Bytes
as_list none = []
as_list (some id) = id ∷ []

text_or-ok {ℓ} :
    {A : Type ℓ} (v : ServerVar) (old : A) (f : Bytes → A)
    → v ≢ other
    → (a : A) × (text_or v old f ≡ ok a)
text_or-ok missing old f h = (old, refl)
text_or-ok (string s) old f h = (f s, refl)
text_or-ok other old f h = absurd (h refl)

-- A trace id that the request came with, or else 16 hexadecimal digits whose bytes are the number drawn.
abbrev pub CameOrDrawn : Option Bytes → List ℕ → Bytes → Type 0
CameOrDrawn came randoms t =
    (came ≡ some t) ⊎ ((came ≡ none) × (length t ≡ 16) × (le_value (hex2b t) ≡ rand_uint64 randoms))

or_random-ok :
    (val : Option Bytes) (randoms : List ℕ)
    → (t : Bytes) × (or_random val randoms ≡ ok t) × CameOrDrawn val randoms t
or_random-ok none randoms =
    let (t, e, l, d, v) = rand64hex-rand_uint64 randoms in (t, e, inr (refl, l, v))
or_random-ok (some v) randoms = (v, refl, inl refl)

set_val-received : (v : ServerVar) (k : ChainKey) → k.val ≡ none → (set_val v k).val ≡ received v
set_val-received missing k h = h
set_val-received (string s) k h = refl
set_val-received other k h = h

module _ (m : SpanMode) (laws : SpanLaws m) where
  open laws use {Ready}

  -- An id that the request came with, or else the one that a new span over `zs` gets.
  abbrev pub CameOrNew : Option Bytes → ℕ → List m.Context → Bytes → Type 0
  CameOrNew came step zs id = (came ≡ some id) ⊎ ((came ≡ none) × (id ≡ laws.new_id step zs))

  push_span-ids :
      (n : ℕ) (span : Option Bytes) (step : ℕ) (s : Stack m.Context) (xs : List m.Context)
      → Holds s xs
      → Ready (suc n) step xs
      → (step' : ℕ) × (s' : Stack m.Context) × (ys : List m.Context) × (id : Bytes) × (push_span m
            span step s
          ≡ ok (step', s'))
        × Holds s' ys
        × (map m.span_id ys ≡ id ∷ map m.span_id xs)
        × CameOrNew span step xs id
        × Ready n step' ys
  push_span-ids n none step s xs h r =
      let (step', s', o, e, is_new, r') = laws.push-ok n step s xs h r in
      (
        step',
        s',
        o.context ∷ o.rest,
        m.span_id o.context,
        e,
        o.holds,
        ap (λ t. m.span_id o.context ∷ t) o.same_ids,
        inr (refl, is_new),
        r',
      )
  push_span-ids n (some id) step s xs h r =
      let (s', o, e, same, r') = laws.push_id-ok n step s id xs h r in
      (
        step,
        s',
        o.context ∷ o.rest,
        id,
        rw e refl,
        o.holds,
        ap (λ t. m.span_id o.context ∷ t) o.same_ids ∙ ap (λ i. i ∷ map m.span_id xs) same,
        inl refl,
        r',
      )

  push_parent-ids :
      (n : ℕ) (parent : Option Bytes) (step : ℕ) (s : Stack m.Context)
      → Holds s []
      → Ready (suc n) step []
      → (s' : Stack m.Context) × (ys : List m.Context) × (push_parent m parent s ≡ ok s')
        × Holds s' ys
        × (map m.span_id ys ≡ as_list parent)
        × Ready n step ys
  push_parent-ids n none step s h r = (s, [], refl, h, refl, laws.Ready-down n step [] r)
  push_parent-ids n (some id) step s h r =
      let (s', o, e, same, r') = laws.push_id-ok n step s id [] h r in
      (
        s',
        o.context ∷ o.rest,
        e,
        o.holds,
        ap (λ t. m.span_id o.context ∷ t) o.same_ids ∙ ap (λ i. i ∷ []) same,
        r',
      )

  -- When a web request begins with an empty span stack: a span is open over the parent that the request
  -- came with, if any, with the id that it came with or, if it had none, the one that the next span over
  -- this parent gets; and the header has the trace id that it came with or, if it had none, 16 digits for
  -- the number drawn. The conditions: there is room for two spans and `n` more, which is left for these,
  -- and the server's address and port are texts, if they are set.
  pub build_header-ids :
      (n : ℕ) (atoi : Bytes → ℤ) (server : Bytes → ServerVar) (ip : Bytes) (randoms : List ℕ)
      (step : ℕ) (s : Stack m.Context) (p : Prefixes) (ip0 : Bytes) (port0 : ℤ)
      → Holds s []
      → Ready (suc (suc n)) step []
      → server (codes "SERVER_ADDR") ≢ other
      → server (codes "SERVER_PORT") ≢ other
      → let pch0 = init_header p ip0 port0 in
        let came = λ (k : ChainKey). received (server k.receive_key) in
        (step' : ℕ) × (s' : Stack m.Context) × (pch : ChainHeader) × (zs ys : List m.Context) × (id
          trace : Bytes)
        × (build_header m atoi server false ip randoms step s pch0 ≡ ok (step', s', pch))
        × Holds s' ys
        × (map m.span_id ys ≡ id ∷ as_list (came pch0.parent_span_id))
        × (map m.span_id zs ≡ as_list (came pch0.parent_span_id))
        × CameOrNew (came pch0.span_id) step zs id
        × (pch.trace_id.val ≡ some trace)
        × CameOrDrawn (came pch0.trace_id) randoms trace
        × Ready n step' ys
  unfolding build_header receive_all init_header
  build_header-ids n atoi server ip randoms step s p ip0 port0 h r addr port =
      let pch0 = init_header p ip0 port0 in
      let val = λ (k : ChainKey). (receive server k).val in
      let same = λ (k : ChainKey) (e : k.val ≡ none). set_val-received (server k.receive_key) k e in
      let (a, ea) = text_or-ok (server (codes "SERVER_ADDR")) (take 16 ip) (take 16) addr in
      let (q, eq) = text_or-ok (server (codes "SERVER_PORT")) port0 atoi port in
      let (t, et, ot) = or_random-ok (val pch0.trace_id) randoms in
      let (s1, zs, e1, h1, m1, r1) = push_parent-ids (suc n) (val pch0.parent_span_id) step s h r in
      let (step', s2, ys, id, e2, h2, m2, o2, r2) =
        push_span-ids n (val pch0.span_id) step s1 zs h1 r1 in
      (
        step',
        s2,
        complete (receive_all server pch0) t a q,
        zs,
        ys,
        id,
        t,
        rw (ea, eq, et, e1, e2) refl,
        h2,
        m2 ∙ ap (λ l. id ∷ l) (m1 ∙ ap as_list (same pch0.parent_span_id refl)),
        m1 ∙ ap as_list (same pch0.parent_span_id refl),
        subst (λ v. CameOrNew v step zs id) (same pch0.span_id refl) o2,
        refl,
        subst (λ v. CameOrDrawn v randoms t) (same pch0.trace_id refl) ot,
        r2,
      )
