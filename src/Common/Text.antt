-- ===== src/Common/Text.antt =====
-- C strings as the list of their bytes, the terminating NUL left out, with the tests and the
-- formats of string.h and stdio.h that the program uses.
use Prim.Native.Nat.{ℕ, zero, suc, ◌+◌, ◌/◌, ◌%◌, ◌≤◌, ◌<◌, ◌^◌}
use Prim.Native.Char.{code}
use Prim.Native.String.{String}
use mathlib.Core.Path.{◌≡◌, refl}
use mathlib.Core.Bool.{Bool, true, false, ◌&&◌}
use mathlib.Core.List.{List, [], ◌∷◌, ◌++◌}
use native.Mathlib.Nat.{pow-suc}
use native.Mathlib.Omega.{arith}
use molten.Common.Tests.{ltb, ◌==◌, if◌then◌else◌}
use molten.Common.Lists.{length}

abbrev pub Bytes : Type 0
Bytes = List ℕ

-- A string literal: its code points, which for ASCII are its bytes.
abbrev pub codes : String → Bytes
codes String.[] = []
codes (String.◌∷◌ c s) = code c ∷ codes s

-- `strcmp(a, b) == 0`, and the comparison of two hash keys.
unfoldable pub bytes_eq : Bytes → Bytes → Bool
bytes_eq [] [] = true
bytes_eq [] (y ∷ ys) = false
bytes_eq (x ∷ xs) [] = false
bytes_eq (x ∷ xs) (y ∷ ys) = x == y && bytes_eq xs ys

-- `strncmp(s, lit, strlen(lit)) == 0`
unfoldable pub has_prefix : Bytes → Bytes → Bool
has_prefix [] s = true
has_prefix (x ∷ lit) [] = false
has_prefix (x ∷ lit) (y ∷ s) = x == y && has_prefix lit s

pub bytes_eq_refl : (xs : Bytes) → bytes_eq xs xs ≡ true
unfolding bytes_eq
bytes_eq_refl [] = refl
bytes_eq_refl (x ∷ xs) = ground (arith, bytes_eq_refl xs)

pub bytes_eq_sound : (xs ys : Bytes) → bytes_eq xs ys ≡ true → xs ≡ ys
unfolding bytes_eq
bytes_eq_sound [] [] h = refl
bytes_eq_sound [] (y ∷ ys) h = cc
bytes_eq_sound (x ∷ xs) [] h = cc
bytes_eq_sound (x ∷ xs) (y ∷ ys) h = ground (arith, bytes_eq_sound xs ys)

pub has_prefix-append : (lit s : Bytes) → has_prefix lit (lit ++ s) ≡ true
unfolding has_prefix
has_prefix-append [] s = refl
has_prefix-append (x ∷ lit) s = ground (arith, has_prefix-append lit s)

-- `%d` and `%ld` of a number that is not negative: the digits of `n` in front of `acc`. One unit
-- of fuel is used for each digit, so `n + 1` is enough.
unfoldable pub decimal_onto : ℕ → ℕ → Bytes → Bytes
decimal_onto zero n acc = acc
decimal_onto (suc fuel) n acc =
    let rest = decimal_onto fuel (n / 10) ((b'0' + n % 10) ∷ acc) in
    if ltb n 10 then (b'0' + n) ∷ acc else rest

unfoldable pub decimal : ℕ → Bytes
unfolding decimal_onto
decimal n = decimal_onto (suc n) n []

-- A number below `10 ^ (k + 1)` has at most `k + 1` digits, whatever the fuel.
pub length-decimal_onto-le :
    (k fuel n : ℕ) (acc : Bytes)
    → n < 10 ^ suc k
    → length (decimal_onto fuel n acc) ≤ suc k + length acc
unfolding decimal_onto
length-decimal_onto-le k zero n acc h = omega arith
length-decimal_onto-le zero (suc fuel) n acc h = ground arith
length-decimal_onto-le (suc k) (suc fuel) n acc h =
    let small : n / 10 < 10 ^ suc k = omega (arith, pow-suc 10 (suc k)) in
    ground (arith, length-decimal_onto-le k fuel (n / 10) ((b'0' + n % 10) ∷ acc) small)

pub length-decimal-le : (k n : ℕ) → n < 10 ^ suc k → length (decimal n) ≤ suc k
unfolding decimal
length-decimal-le k n h = omega (arith, length-decimal_onto-le k (suc n) n [] h)

-- The bytes of a PHP string that a C function sees: those in front of the first NUL.
unfoldable pub c_string : Bytes → Bytes
c_string [] = []
c_string (c ∷ s) = if c == 0 then [] else c ∷ c_string s

pub length-c_string-le : (s : Bytes) → length (c_string s) ≤ length s
unfolding c_string
length-c_string-le [] = omega arith
length-c_string-le (c ∷ s) = ground (arith, length-c_string-le s)

-- `zend_str_tolower_dup`
unfoldable pub lower : Bytes → Bytes
lower [] = []
lower (c ∷ s) = (if ltb 64 c && ltb c 91 then c + 32 else c) ∷ lower s
