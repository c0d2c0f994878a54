-- ===== src/Ids/Level.antt =====
-- The lengths of the span ids of molten_util.c, and the buffers that they are printed into.
use molten.Common.{
  ℕ, ◌+◌, ◌-◌, ◌^◌, ◌%◌, ◌<◌, ◌≡◌, some, ◌++◌, Bytes, codes, decimal, length-decimal-le, Bool-cases,
  inl, inr, ltb→lt, length, length-append, arith, ltb, lt→ltb, ok,
}
use molten.Ids.{sprintf, build_span_id_level, build_span_id_random, decimal_int, max_spans_len}

-- Below 100000 children a level id fits its buffer: it is the parent's id, a dot, and the count.
pub build_span_id_level-fits :
    (parent : Bytes) (span_count : ℕ)
    → span_count < 100000
    → build_span_id_level (some parent) span_count ≡ ok (parent ++ codes "." ++ decimal span_count)
unfolding build_span_id_level sprintf
build_span_id_level-fits parent span_count h = rw (lt→ltb _ _ fits)
  where
    fits : length (parent ++ codes "." ++ decimal span_count) < 2 + max_spans_len + length parent
    fits = omega (
      arith,
      length-append (parent ++ codes ".") (decimal span_count),
      length-append parent (codes "."),
      length-decimal-le 4 span_count h,
    )

length-decimal_int : (n : ℕ) → n < 2 ^ 32 → length (decimal_int n) < 17
unfolding decimal_int
length-decimal_int n h = elim (Bool-cases (ltb n (2 ^ 31))) [
  | inl e ↦ rw e (omega (arith, length-decimal-le 9 n (omega (arith, ltb→lt n (2 ^ 31) e))))
  | inr e ↦ rw e (
      omega (
        arith,
        length-append (codes "-") (decimal (2 ^ 32 - n)),
        length-decimal-le 9 (2 ^ 32 - n) (ground arith),
      ))
]

-- Whatever the counter, a random id fits its buffer.
pub build_span_id_random-fits :
    (step : ℕ)
    → step < 2 ^ 32
    → build_span_id_random step ≡ ok (decimal_int step, (step + 1) % 2 ^ 32)
unfolding build_span_id_random sprintf
build_span_id_random-fits step h = rw (lt→ltb _ _ fits)
  where
    fits : length (decimal_int step) < 17
    fits = length-decimal_int step h
