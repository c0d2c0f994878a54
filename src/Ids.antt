-- ===== src/Ids.antt =====
-- molten_util.c: the text of a span id and of a trace id.
pub mod Hex
pub mod Level
use molten.Common.{
  ℕ, zero, suc, ◌+◌, ◌*◌, ◌/◌, ◌-◌, ◌%◌, ◌^◌, Option, none, some, List, [], ◌∷◌, ◌++◌, Bytes, codes,
  decimal, get_elem?, length, Result, ok, fault, ◌>>=◌, leb, ltb, if◌then◌else◌, ◌≡◌,
}

-- `hexits`
abbrev pub hexits : Bytes
hexits = codes "0123456789abcdef"

-- `hexits[d]`; reading outside the table is a fault.
unfoldable pub hexit : ℕ → Result ℕ
hexit d = elim (get_elem? hexits d) [ none ↦ fault | some c ↦ ok c ]

-- `b2hex`: two digits for each byte, the upper one first. `>> 4` and `& 0x0F` are written out.
unfoldable pub b2hex : Bytes → Result Bytes
b2hex [] = ok []
b2hex (b ∷ input) =
    let rest = b2hex input in
    do hi ← hexit (b / 2 ^ 4); lo ← hexit (b % 2 ^ 4); output ← rest; ok (hi ∷ lo ∷ output)

-- The bytes of a number in memory, on a little-endian machine.
unfoldable pub le_bytes : ℕ → ℕ → Bytes
le_bytes zero n = []
le_bytes (suc k) n = (n % 256) ∷ le_bytes k (n / 256)

-- `bin2hex64`
unfoldable pub bin2hex64 : ℕ → Result Bytes
bin2hex64 n = b2hex (le_bytes 8 n)

-- The loop of `rand_uint64` over the values that `random()` returns: `r * (RAND_MAX + 1) + random()`
-- in 64 bits, with `RAND_MAX` = 2 ^ 31 - 1. (`LOOP_COUNT` is then 3: the list has three values.)
unfoldable pub rand_uint64_loop : ℕ → List ℕ → ℕ
rand_uint64_loop r [] = r
rand_uint64_loop r (x ∷ xs) = rand_uint64_loop ((r * 2 ^ 31 + x) % 2 ^ 64) xs

unfoldable pub rand_uint64 : List ℕ → ℕ
rand_uint64 randoms = rand_uint64_loop 0 randoms

-- `rand64hex`
unfoldable pub rand64hex : List ℕ → Result Bytes
rand64hex randoms = bin2hex64 (rand_uint64 randoms)

-- A write of the bytes `s` and a NUL into a buffer of `len` bytes.
unfoldable pub sprintf : ℕ → Bytes → Result Bytes
sprintf len s = if ltb (length s) len then ok s else fault

-- `MAX_SPANS_LEN`
abbrev pub max_spans_len : ℕ
max_spans_len = 5

-- `build_span_id_level`: `parent.count`, or `1` at the root (`none`).
unfoldable pub build_span_id_level : Option Bytes → ℕ → Result Bytes
build_span_id_level none span_count = ok (codes "1")
build_span_id_level (some parent) span_count =
    sprintf (2 + max_spans_len + length parent) (parent ++ codes "." ++ decimal span_count)

-- `%d` of an `int`, given by its 32 bits.
unfoldable pub decimal_int : ℕ → Bytes
decimal_int n = if ltb n (2 ^ 31) then decimal n else codes "-" ++ decimal (2 ^ 32 - n)

-- `build_span_id_random`: the value of the counter `step` (the 32 bits of an `int`, which wraps) in
-- a buffer of 17 bytes, and the counter one up.
unfoldable pub build_span_id_random : ℕ → Result (Bytes × ℕ)
build_span_id_random step = do
  id ← sprintf (8 * 2 + 1) (decimal_int step)
  ok (id, (step + 1) % 2 ^ 32)
