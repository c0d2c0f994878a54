-- ===== src/Chain/Outgoing.antt =====
-- `add_http_trace_header` of molten.c: the header lines of an outgoing request, and what the called
-- service makes of them.
use molten.Common.{
  ◌≡◌, refl, sym, ap, ◌∙◌, Bool, true, false, ◌||◌, Option, none, some, List, [], ◌∷◌, ◌++◌, map,
  Bytes, codes, has_prefix, if◌then◌else◌, ℤ, Result, ok, fault, ◌>>=◌,
}
use mathlib.Core.List.{append-nil, append_assoc}
use molten.Zval.{
  Zval, string, Arr, empty, entry, Key, append, add_next_index, next_index, indexed, values,
}
use molten.Chain.{ChainKey, ChainHeader, Prefixes, init_header}
use molten.Record.Errors.{raw_string}

-- The keys in the order of the table.
abbrev pub keys_of : ChainHeader → List ChainKey
keys_of pch = pch.trace_id ∷ pch.span_id ∷ pch.parent_span_id ∷ pch.sampled ∷ pch.flags ∷ []

-- The first text that is not NULL; the last is used in any case.
abbrev pub first_text : Option Bytes → Option Bytes → Option Bytes → Result Bytes
first_text (some v) w val = ok v
first_text none (some w) val = ok w
first_text none none (some v) = ok v
first_text none none none = fault

-- The value that a key is passed with: the ids are those of the open span.
unfoldable pub pass_value : Option Bytes → Option Bytes → ChainKey → Result Bytes
pass_value span_id parent_span_id pck =
    first_text (if has_prefix (codes "span_id") pck.name then span_id else none)
      (if has_prefix (codes "parent_span_id") pck.name then parent_span_id else none) pck.val

abbrev pub header_line : Bytes × Bytes → Bytes
header_line (key, value) = key ++ codes ": " ++ value

unfoldable pub add_keys : Option Bytes → Option Bytes → List ChainKey → Arr → Result Arr
add_keys span_id parent_span_id [] header = ok header
add_keys span_id parent_span_id (pck ∷ more) header = do
  value ← pass_value span_id parent_span_id pck
  add_keys span_id parent_span_id more
      (add_next_index (string (header_line (pck.pass_key, value))) header)

-- Whether the flag is among the lines that are there; each must be a string.
abbrev pub is_flag : Bytes → Option Bytes → Result Bool
is_flag flag none = fault
is_flag flag (some line) = ok (has_prefix flag line)

unfoldable pub is_set : Bytes → List Zval → Result Bool
is_set flag [] = ok false
is_set flag (line ∷ more) = do
  here ← is_flag flag (raw_string line)
  later ← is_set flag more
  ok (here || later)

abbrev pub not_sampled : Bytes → Bool → Arr → Arr
not_sampled flag true header = header
not_sampled flag false header = add_next_index (string (flag ++ codes ": 0")) header

-- `add_http_trace_header`, on the array of the header lines.
unfoldable pub add_http_trace_header :
    Prefixes → Bool → ChainHeader → Option Bytes → Option Bytes → Arr → Result Arr
add_http_trace_header p true pch span_id parent_span_id header =
    add_keys span_id parent_span_id (keys_of pch) header
add_http_trace_header p false pch span_id parent_span_id header = do
  let flag = p.pass ++ codes "Sampled"
  set ← is_set flag (values header)
  ok (not_sampled flag set header)

values-append : (a : Arr) (k : Key) (v : Zval) → values (append a k v) ≡ values a ++ (v ∷ [])
unfolding values append
values-append empty k v = refl
values-append (entry k' v' a) k v = ap (λ l. v' ∷ l) (values-append a k v)

values-add_next_index : (a : Arr) (v : Zval) → values (add_next_index v a) ≡ values a ++ (v ∷ [])
unfolding add_next_index
values-add_next_index a v = values-append a (indexed (next_index a)) v

-- A header that was built with these texts.
abbrev pub header_with :
    Prefixes → Bytes → ℤ → Bytes → Option Bytes → Option Bytes → Bytes → Bytes → ChainHeader
header_with p ip port trace span parent sampled flags =
    let pch = init_header p ip port in
    record pch {
      trace_id = record pch.trace_id { val = some trace };
      span_id = record pch.span_id { val = span };
      parent_span_id = record pch.parent_span_id { val = parent };
      sampled = record pch.sampled { val = some sampled };
      flags = record pch.flags { val = some flags };
    }

-- The names and values that are sent.
abbrev pub sent : Prefixes → Bytes → Bytes → Bytes → Bytes → Bytes → List (Bytes × Bytes)
sent p trace id parent sampled flags =
    (p.pass ++ codes "TraceId", trace)
    ∷ (p.pass ++ codes "SpanId", id)
    ∷ (p.pass ++ codes "ParentSpanId", parent)
    ∷ (p.pass ++ codes "Sampled", sampled)
    ∷ (p.pass ++ codes "Flags", flags)
    ∷ []

abbrev pub string_line : Bytes × Bytes → Zval
string_line l = string (header_line l)

add_lines : Arr → List (Bytes × Bytes) → Arr
add_lines header [] = header
add_lines header (l ∷ more) = add_lines (add_next_index (string_line l) header) more

values-add_lines :
    (header : Arr) (ls : List (Bytes × Bytes))
    → values (add_lines header ls) ≡ values header ++ map string_line ls
unfolding add_lines
values-add_lines header [] = sym (append-nil _)
values-add_lines header (l ∷ more) =
    values-add_lines (add_next_index (string_line l) header) more
    ∙ ap (λ vs. vs ++ map string_line more) (values-add_next_index header (string_line l))
    ∙ append_assoc (values header) (string_line l ∷ []) (map string_line more)

-- In a sampled request the five lines are put behind those that are there, with the ids of the open span
-- and of the one below it.
pub add_http_trace_header-sent :
    (p : Prefixes) (ip : Bytes) (port : ℤ) (trace : Bytes) (span came : Option Bytes)
    (sampled flags id parent : Bytes) (header : Arr)
    → let pch = header_with p ip port trace span came sampled flags in
      (header' : Arr) × (add_http_trace_header p true pch (some id) (some parent) header
        ≡ ok header')
      × (values header' ≡ values header ++ map string_line (sent p trace id parent sampled flags))
unfolding add_http_trace_header add_keys pass_value has_prefix init_header add_lines
add_http_trace_header-sent p ip port trace span came sampled flags id parent header =
    let ls = sent p trace id parent sampled flags in
    (add_lines header ls, refl, values-add_lines header ls)
