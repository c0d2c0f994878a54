-- ===== src/Span/SkyLinks.antt =====
-- The ids in a span of the SkyWalking format, and what an annotation of it may change.
use molten.Common.{
  ℕ, ◌^◌, ◌==◌, ◌||◌, ◌&&◌, ◌<◌, ◌≡◌, refl, ap, ◌∙◌, Bool, true, false, ltb, leb, length, Option,
  none, some, ◌∷◌, Bytes, bytes_eq, codes, decimal, ℤ, pos, negsuc, atoi-decimal, decimal-Starts,
  is_digit, ok, ◌>>=◌, arith,
}
use molten.Ids.{sprintf}
use molten.Zval.{
  Arr, empty, long, string, array, find, add_assoc, add_next_index, in_array, has_name,
}
use molten.Span.{AnType}
use molten.Span.SkyWalking.{
  SkyChain, to_uint32, starts_int, scan, add_parent_id, operation_name, fields, add_span, pair,
  add_tag, kind_of, start_span_builder,
}

starts_int-digit : (c : ℕ) (s : Bytes) → is_digit c ≡ true → starts_int (c ∷ s) ≡ true
unfolding starts_int
starts_int-digit c s h =
    let blank : (c == b' ' || (leb 9 c && leb c 13)) ≡ false = ground arith in
    let sign : (c == b'-' || c == b'+') ≡ false = ground arith in rw (blank, sign) h

to_uint32-small : (n : ℕ) → n < 2 ^ 31 → to_uint32 (pos n) ≡ n
unfolding to_uint32
to_uint32-small n h = omega arith

scan-decimal : (n : ℕ) → n < 2 ^ 31 → scan (decimal n) ≡ ok n
unfolding scan
scan-decimal n h =
    let (c, s, e, digit) = decimal-Starts n in
    let starts : starts_int (decimal n) ≡ true = ap starts_int e ∙ starts_int-digit c s digit in
    rw (starts, atoi-decimal n, to_uint32-small n h) refl

pub sprintf-fits : (len : ℕ) (s : Bytes) → length s < len → sprintf len s ≡ ok s
unfolding sprintf
sprintf-fits len s h = let yes : ltb (length s) len ≡ true = ground arith in rw yes refl

abbrev pub text_of : Option ℕ → Option Bytes
text_of none = none
text_of (some n) = some (decimal n)

-- -1 for none.
abbrev pub number_of : Option ℕ → ℤ
number_of none = negsuc 0
number_of (some n) = pos n

abbrev pub fits_int : Option ℕ → Bool
fits_int none = true
fits_int (some n) = ltb n (2 ^ 31)

add_parent_id-number :
    (parent : Option ℕ) (span : Arr)
    → fits_int parent ≡ true
    → add_parent_id (text_of parent) span
      ≡ ok (add_assoc (codes "ps") (long (number_of parent)) span)
add_parent_id-number none span h = refl
add_parent_id-number (some n) span h =
    ap (λ r. r >>= λ k. ok (add_assoc (codes "ps") (long (pos k)) span))
      (scan-decimal n (ground arith))

-- If the ids of a span and of its parent are the decimals of numbers below 2 ^ 31 and the name of the
-- operation, made of the service, the span's name and its id, is shorter than 128 bytes: then the span is
-- built, `si` is the number of the span, `ps` that of its parent, -1 if there is none, the operation has
-- its name, and the only tag is the kind.
pub start_span_builder-links :
    (name : Bytes) (id : ℕ) (parent : Option ℕ) (start finish : ℕ) (pct : SkyChain) (an : AnType)
    → id < 2 ^ 31
    → fits_int parent ≡ true
    → length (operation_name pct.service_name name (decimal id)) < 128
    → (span : Arr) × (start_span_builder name (decimal id) (text_of parent) start finish pct an
        ≡ ok span)
      × (find (codes "si") span ≡ some (long (pos id)))
      × (find (codes "ps") span ≡ some (long (number_of parent)))
      × (find (codes "on") span ≡ some (string (operation_name pct.service_name name (decimal id))))
      × (find (codes "to") span
          ≡ some (array (add_next_index (array (pair (codes "span.kind") (kind_of an))) empty)))
unfolding start_span_builder add_span fields add_tag find add_assoc in_array has_name bytes_eq
start_span_builder-links name id parent start finish pct an small small_parent short =
    let on = operation_name pct.service_name name (decimal id) in
    let span0 = fields name id on start finish pct in
    let built = add_assoc (codes "lo") (array empty) (
      add_assoc (codes "to") (array empty)
        (add_assoc (codes "ps") (long (number_of parent)) span0)) in
    (
      add_tag (some (codes "span.kind")) (some (kind_of an)) built,
      rw
          (
            scan-decimal id small,
            sprintf-fits 128 on short,
            add_parent_id-number parent span0 small_parent,
          )
          refl,
      refl,
      refl,
      refl,
      refl,
    )
