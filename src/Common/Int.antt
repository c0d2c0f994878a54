-- ===== src/Common/Int.antt =====
-- Signed integers over the native numbers.
use Prim.Native.Nat.{ℕ, suc, ◌+◌, ◌-◌, ◌*◌, ◌%◌, ◌^◌, ◌≤◌}
use mathlib.Core.Path.{◌≡◌}
use mathlib.Core.Bool.{Bool, ◌&&◌, ◌||◌}
use mathlib.Core.List.{[], ◌∷◌, ◌++◌}
use native.Mathlib.Omega.{arith}
use molten.Common.Tests.{ltb, leb, ◌==◌, if◌then◌else◌}
use molten.Common.Text.{Bytes, codes, decimal}

-- `negsuc n` is -(n + 1).
pub data ℤ : Type 0 where
  pos : ℕ → ℤ
  negsuc : ℕ → ℤ

abbrev pub pos_part : ℤ → ℕ
pos_part (pos n) = n
pos_part (negsuc n) = 0

abbrev pub neg_part : ℤ → ℕ
neg_part (pos n) = 0
neg_part (negsuc n) = suc n

-- a - b, as an integer.
abbrev pub sub_ℕ : ℕ → ℕ → ℤ
sub_ℕ a b = if leb b a then pos (a - b) else negsuc (b - a - 1)

infixl 65 ◌+ℤ◌ ◌-ℤ◌
infix 50 ◌≤ℤ◌
unfoldable pub ◌+ℤ◌ : ℤ → ℤ → ℤ
a +ℤ b = sub_ℕ (pos_part a + pos_part b) (neg_part a + neg_part b)

unfoldable pub ◌-ℤ◌ : ℤ → ℤ → ℤ
a -ℤ b = sub_ℕ (pos_part a + neg_part b) (neg_part a + pos_part b)

abbrev pub ◌≤ℤ◌ : ℤ → ℤ → Type 0
a ≤ℤ b = pos_part a + neg_part b ≤ pos_part b + neg_part a

abbrev pub ltb_ℤ : ℤ → ℤ → Bool
ltb_ℤ a b = ltb (pos_part a + neg_part b) (pos_part b + neg_part a)

pub +ℤ_parts :
    (a b : ℤ)
    → pos_part (a +ℤ b) + neg_part a + neg_part b ≡ neg_part (a +ℤ b) + pos_part a + pos_part b
unfolding ◌+ℤ◌
+ℤ_parts a b = ground arith

pub -ℤ_parts :
    (a b : ℤ)
    → pos_part (a -ℤ b) + neg_part a + pos_part b ≡ neg_part (a -ℤ b) + pos_part a + neg_part b
unfolding ◌-ℤ◌
-ℤ_parts a b = ground arith

pub eq_of_parts : (a b : ℤ) → pos_part a + neg_part b ≡ pos_part b + neg_part a → a ≡ b
eq_of_parts a b h = ground arith

pub ruleset int_laws = (arith, +ℤ_parts, -ℤ_parts, eq_of_parts)

-- The absolute value.
abbrev pub magnitude : ℤ → ℕ
magnitude a = pos_part a + neg_part a

-- `(uint8_t)a`
unfoldable pub to_uint8 : ℤ → ℕ
to_uint8 (pos n) = n % 2 ^ 8
to_uint8 (negsuc n) = 2 ^ 8 - 1 - n % 2 ^ 8

-- A 64-bit pattern read as a `long`.
unfoldable pub to_int64 : ℕ → ℤ
to_int64 n =
    if ltb (n % 2 ^ 64) (2 ^ 63) then pos (n % 2 ^ 64) else negsuc (2 ^ 64 - 1 - n % 2 ^ 64)

-- `%ld`
unfoldable pub decimal_ℤ : ℤ → Bytes
decimal_ℤ (pos n) = decimal n
decimal_ℤ (negsuc n) = codes "-" ++ decimal (suc n)

-- `atoi`: white space, a sign, digits. A value that does not fit an `int` is undefined in C.
abbrev pub is_digit : ℕ → Bool
is_digit c = leb b'0' c && leb c b'9'

unfoldable pub read_digits : ℕ → Bytes → ℕ
read_digits n [] = n
read_digits n (c ∷ s) =
    let rest = read_digits (n * 10 + (c - b'0')) s in if is_digit c then rest else n

unfoldable pub read_signed : Bytes → ℤ
read_signed [] = pos 0
read_signed (c ∷ s) =
    if c == b'-'
    then pos 0 -ℤ pos (read_digits 0 s)
    else if c == b'+'
    then pos (read_digits 0 s)
    else pos (read_digits 0 (c ∷ s))

unfoldable pub atoi : Bytes → ℤ
atoi [] = pos 0
atoi (c ∷ s) =
    let rest = atoi s in if c == b' ' || (leb 9 c && leb c 13) then rest else read_signed (c ∷ s)

-- `(int)a`
unfoldable pub int_of_bits : ℕ → ℤ
int_of_bits r = if ltb r (2 ^ 31) then pos r else negsuc (2 ^ 32 - 1 - r)

unfoldable pub to_int32 : ℤ → ℤ
unfolding int_of_bits
to_int32 (pos n) = int_of_bits (n % 2 ^ 32)
to_int32 (negsuc n) = int_of_bits (2 ^ 32 - 1 - n % 2 ^ 32)

-- `(uint64_t)a`
unfoldable pub to_uint64 : ℤ → ℕ
to_uint64 (pos n) = n % 2 ^ 64
to_uint64 (negsuc n) = 2 ^ 64 - 1 - n % 2 ^ 64
