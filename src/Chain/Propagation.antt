-- ===== src/Chain/Propagation.antt =====
-- A traced call of another service: what `add_http_trace_header` sends is what `mo_build_chain_header` of
-- the called service begins with.
use molten.Common.{
  ℕ, suc, ◌-◌, ◌≡◌, ◌≢◌, refl, sym, ap, ◌∙◌, ◌⊎◌, inl, inr, false, true, Option, none, some, List,
  [], ◌∷◌, ◌++◌, map, All, Bytes, codes, leb, ◌==◌, ◌&&◌, if◌then◌else◌, ℤ, ok,
}
use mathlib.Core.List.{append_assoc}
use molten.Control.{ServerVar, string, other}
use molten.Zval.{Arr, values}
use molten.Stack.{Stack}
use molten.Stack.Contents.{Holds}
use molten.SpanContext.Defs.{SpanMode, SpanLaws}
use molten.Chain.{ChainHeader, Prefixes, init_header, build_header}
use molten.Chain.Header.{received, as_list, build_header-ids, CameOrDrawn}
use molten.Chain.Outgoing.{
  header_with, string_line, sent, add_http_trace_header, add_http_trace_header-sent,
}

-- The server variable of a request's header, as RFC 3875 has it.
abbrev pub cgi_char : ℕ → ℕ
cgi_char c = if leb b'a' c && leb c b'z' then c - 32 else (if c == b'-' then b'_' else c)

abbrev pub cgi_chars : Bytes → Bytes
cgi_chars [] = []
cgi_chars (c ∷ s) = cgi_char c ∷ cgi_chars s

abbrev pub cgi_name : Bytes → Bytes
cgi_name name = codes "HTTP_" ++ cgi_chars name

cgi_chars-append : (s r : Bytes) → cgi_chars (s ++ r) ≡ cgi_chars s ++ cgi_chars r
cgi_chars-append [] r = refl
cgi_chars-append (c ∷ s) r = ap (λ l. cgi_char c ∷ l) (cgi_chars-append s r)

cgi_name-append : (s r : Bytes) → cgi_name (s ++ r) ≡ cgi_name s ++ cgi_chars r
cgi_name-append s r =
    ap (λ l. codes "HTTP_" ++ l) (cgi_chars-append s r)
    ∙ sym (append_assoc (codes "HTTP_") (cgi_chars s) (cgi_chars r))

-- The server has the variable of each line.
abbrev pub Serves : (Bytes → ServerVar) → List (Bytes × Bytes) → Type 0
Serves server = All (λ l. server (cgi_name l.0) ≡ string l.1)

module _ (server : Bytes → ServerVar) (p : Prefixes) (names : cgi_name p.pass ≡ p.receive) where
  serves-received :
      (key receive_key value : Bytes)
      → cgi_chars key ≡ receive_key
      → server (cgi_name (p.pass ++ key)) ≡ string value
      → received (server (p.receive ++ receive_key)) ≡ some value
  serves-received key receive_key value e h =
      let name : cgi_name (p.pass ++ key) ≡ p.receive ++ receive_key =
        cgi_name-append p.pass key
        ∙ ap (λ l. l ++ cgi_chars key) names
        ∙ ap (λ l. p.receive ++ l) e in
      ap received (ap server (sym name) ∙ h)

came_some :
    {A : Type 0} (came : Option Bytes) (id value : Bytes)
    → came ≡ some value
    → ((came ≡ some id) ⊎ ((came ≡ none) × A))
    → id ≡ value
came_some came id value h (inl e) = cc
came_some came id value h (inr (e, a)) = cc

came_drawn :
    (came : Option Bytes) (randoms : List ℕ) (id value : Bytes)
    → came ≡ some value
    → CameOrDrawn came randoms id
    → id ≡ value
came_drawn came randoms id value h (inl e) = cc
came_drawn came randoms id value h (inr (e, l, v)) = cc

-- A sampled request calls another service: the lines that it adds to the header are made, behind those
-- that are there, and the called service, where it is a web request with an empty span stack, has the
-- caller's span open over the caller's parent, and the trace id of the caller. The conditions: the server
-- has the variables of the lines that are sent, the prefixes of sending and receiving belong together,
-- there is room for two spans and `n` more, and the server's address and port are texts, if set.
pub outgoing-continues :
    (m : SpanMode) (laws : SpanLaws m) (p : Prefixes) (ip : Bytes) (port : ℤ) (trace : Bytes)
    (span came : Option Bytes) (sampled flags id parent : Bytes) (header : Arr) (n : ℕ)
    (atoi : Bytes → ℤ) (server : Bytes → ServerVar) (own_ip : Bytes) (randoms : List ℕ) (step : ℕ)
    (s : Stack m.Context) (ip0 : Bytes) (port0 : ℤ)
    → cgi_name p.pass ≡ p.receive
    → Serves server (sent p trace id parent sampled flags)
    → Holds s []
    → laws.Ready (suc (suc n)) step []
    → server (codes "SERVER_ADDR") ≢ other
    → server (codes "SERVER_PORT") ≢ other
    → let pch = header_with p ip port trace span came sampled flags in
      (header' : Arr) × (add_http_trace_header p true pch (some id) (some parent) header
        ≡ ok header')
      × (values header' ≡ values header ++ map string_line (sent p trace id parent sampled flags))
      × ((step' : ℕ) × (s' : Stack m.Context) × (pch' : ChainHeader) × (ys : List m.Context)
          × (build_header m atoi server false own_ip randoms step s (init_header p ip0 port0)
              ≡ ok (step', s', pch'))
          × Holds s' ys
          × (map m.span_id ys ≡ id ∷ parent ∷ [])
          × (pch'.trace_id.val ≡ some trace))
unfolding init_header
outgoing-continues m laws p ip port trace span came sampled flags id parent header n atoi server
      own_ip randoms step s ip0 port0 names (t, (i, (pa, (sa, (fl, u))))) h r addr sport =
    let added =
      add_http_trace_header-sent p ip port trace span came sampled flags id parent header in
    let (
      step', s', pch', zs, ys, new, trace', e, h', ids, parents, span_came, trace_val, trace_came,
      r',
    ) =
      build_header-ids m laws n atoi server own_ip randoms step s p ip0 port0 h r addr sport in
    let got_trace =
      serves-received server p names (codes "TraceId") (codes "TRACEID") trace refl t in
    let got_id = serves-received server p names (codes "SpanId") (codes "SPANID") id refl i in
    let got_parent =
      serves-received server p names (codes "ParentSpanId") (codes "PARENTSPANID") parent refl pa in
    (
      added.0,
      added.1,
      added.2,
      (
        step',
        s',
        pch',
        ys,
        e,
        h',
        ids
            ∙ ap (λ l. l ∷ as_list (received (server (p.receive ++ codes "PARENTSPANID"))))
                (came_some _ new id got_id span_came)
            ∙ ap (λ o. id ∷ as_list o) got_parent,
        trace_val ∙ ap some (came_drawn _ randoms trace' trace got_trace trace_came),
      ),
    )
