-- ===== src/Ids/Hex.antt =====
-- Hexadecimal text as molten_util.c makes it: its length, its digits and the bytes that it stands for.
use mathlib.Core.Path.{ap₂}
use native.Mathlib.Nat.{pow-suc}
use molten.Common.{
  ℕ, zero, suc, ◌+◌, ◌*◌, ◌/◌, ◌%◌, ◌^◌, ◌<◌, ◌≡◌, refl, ap, ◌∙◌, List, [], ◌∷◌, Bytes, arith, leb,
  ltb, ◌==◌, ◌&&◌, ◌||◌, ◌-◌, ==_iff, holds_below, holds_below-lt, if◌then◌else◌, Bool, true, false,
  length, All, Result, ok, fault,
}
use molten.Ids.{hexit, b2hex, le_bytes, bin2hex64, rand_uint64_loop, rand_uint64, rand64hex}

-- The value of a hexadecimal digit.
unfoldable pub nibble : ℕ → ℕ
nibble c = if ltb c b'a' then c - b'0' else c - b'a' + 10

-- The bytes that a text of digits stands for: the reading that `b2hex` should invert.
unfoldable pub hex2b : Bytes → Bytes
hex2b [] = []
hex2b (hi ∷ []) = []
hex2b (hi ∷ lo ∷ rest) = (nibble hi * 16 + nibble lo) ∷ hex2b rest

-- Whether a byte is one of the sixteen digits.
unfoldable pub is_hexit : ℕ → Bool
is_hexit c = (leb b'0' c && leb c b'9') || (leb b'a' c && leb c b'f')

-- What the table `hexits` should give for the value `d`.
good_hexit : ℕ → Result ℕ → Bool
good_hexit d fault = false
good_hexit d (ok c) = nibble c == d && is_hexit c

hexit_table : holds_below (λ d. good_hexit d (hexit d)) 16 ≡ true
unfolding holds_below good_hexit hexit nibble is_hexit
hexit_table = refl

good_hexit-ok :
    (d : ℕ) (r : Result ℕ)
    → good_hexit d r ≡ true
    → (c : ℕ) × (r ≡ ok c) × (nibble c ≡ d) × (is_hexit c ≡ true)
unfolding good_hexit
good_hexit-ok d fault h = cc
good_hexit-ok d (ok c) h = (c, refl, ground (arith, ==_iff (nibble c) d), ground arith)

-- Each of the sixteen values has its digit.
hexit-ok : (d : ℕ) → d < 16 → (c : ℕ) × (hexit d ≡ ok c) × (nibble c ≡ d) × (is_hexit c ≡ true)
hexit-ok d h = good_hexit-ok d (hexit d) (holds_below-lt _ 16 hexit_table d h)

-- `b2hex` reads no place outside its table: it gives two digits for each byte, and the digits stand
-- for the bytes again.
pub b2hex-hex2b :
    (input : Bytes)
    → All (λ b. b < 256) input
    → (output : Bytes) × (b2hex input ≡ ok output)
      × (hex2b output ≡ input)
      × (length output ≡ length input + length input)
      × All (λ c. is_hexit c ≡ true) output
unfolding b2hex hex2b
b2hex-hex2b [] h = ([], refl, refl, refl, tt)
b2hex-hex2b (b ∷ input) (small, h) =
    let (hi, e1, n1, d1) = hexit-ok (b / 2 ^ 4) (omega arith) in
    let (lo, e2, n2, d2) = hexit-ok (b % 2 ^ 4) (omega arith) in
    let (output, e, back, len, digits) = b2hex-hex2b input h in
    (
      hi ∷ lo ∷ output,
      rw (e1, e2, e),
      ap₂ ◌∷◌ (omega (arith, n1, n2)) back,
      omega (arith, len),
      (d1, (d2, digits)),
    )

le_bytes-small : (k n : ℕ) → All (λ b. b < 256) (le_bytes k n) × (length (le_bytes k n) ≡ k)
unfolding le_bytes
le_bytes-small zero n = (tt, refl)
le_bytes-small (suc k) n =
    let (small, len) = le_bytes-small k (n / 256) in ((omega arith, small), ap suc len)

-- The number that bytes in memory stand for, least significant first.
unfoldable pub le_value : Bytes → ℕ
le_value [] = 0
le_value (b ∷ bs) = b + 256 * le_value bs

le_value-le_bytes : (k n : ℕ) → n < 256 ^ k → le_value (le_bytes k n) ≡ n
unfolding le_value le_bytes
le_value-le_bytes zero n h = omega arith
le_value-le_bytes (suc k) n h =
    omega (arith, le_value-le_bytes k (n / 256) (omega (arith, pow-suc 256 k)))

rand_uint64_loop-lt : (xs : List ℕ) (r : ℕ) → r < 2 ^ 64 → rand_uint64_loop r xs < 2 ^ 64
unfolding rand_uint64_loop
rand_uint64_loop-lt [] r h = h
rand_uint64_loop-lt (x ∷ xs) r h = rand_uint64_loop-lt xs ((r * 2 ^ 31 + x) % 2 ^ 64) (omega arith)

-- Whatever `random()` returns, `rand64hex` gives 16 lower-case hexadecimal digits, and they stand for
-- the bytes in memory of the 64-bit number that was drawn.
pub rand64hex-rand_uint64 :
    (randoms : List ℕ)
    → (id : Bytes) × (rand64hex randoms ≡ ok id)
      × (length id ≡ 16)
      × All (λ c. is_hexit c ≡ true) id
      × (le_value (hex2b id) ≡ rand_uint64 randoms)
unfolding rand64hex bin2hex64 rand_uint64
rand64hex-rand_uint64 randoms =
    let n = rand_uint64_loop 0 randoms in
    let (small, len) = le_bytes-small 8 n in
    let (id, e, back, twice, digits) = b2hex-hex2b (le_bytes 8 n) small in
    (
      id,
      e,
      omega (arith, len, twice),
      digits,
      ap le_value back ∙ le_value-le_bytes 8 n (rand_uint64_loop-lt randoms 0 (omega arith)),
    )
