-- ===== src/Common/Digits.antt =====
-- The digits of a number and what `atoi` reads of them.
use Prim.Native.Nat.{ℕ, zero, suc, ◌+◌, ◌-◌, ◌*◌, ◌/◌, ◌%◌, ◌≤◌, ◌<◌}
use mathlib.Core.Path.{◌≡◌, refl, ap, sym, ◌∙◌}
use mathlib.Core.Bool.{Bool, true, false, ◌&&◌, ◌||◌}
use mathlib.Core.List.{[], ◌∷◌}
use native.Mathlib.Omega.{arith}
use molten.Common.Tests.{ltb, leb, ◌==◌, if◌then◌else◌}
use molten.Common.Text.{Bytes, decimal, decimal_onto}
use molten.Common.Int.{pos, atoi, is_digit, read_digits, read_signed}

digit_value : (n d : ℕ) → d < 10 → n * 10 + ((b'0' + d) - b'0') ≡ n * 10 + d
digit_value n d h = omega arith

read_digits-digit :
    (n d : ℕ) (s : Bytes) → d < 10 → read_digits n ((b'0' + d) ∷ s) ≡ read_digits (n * 10 + d) s
unfolding read_digits
read_digits-digit n d s h =
    let yes : is_digit (b'0' + d) ≡ true = ground arith in rw (yes, digit_value n d h) refl

digit_case :
    (b : Bool) (n : ℕ) (acc rest : Bytes)
    → ltb n 10 ≡ b
    → (ltb n 10 ≡ false → read_digits 0 rest ≡ read_digits n acc)
    → read_digits 0 (if ltb n 10 then (b'0' + n) ∷ acc else rest) ≡ read_digits n acc
digit_case true n acc rest e go =
    let small : n < 10 = ground arith in
    let none_before : 0 * 10 + n ≡ n = omega arith in
    rw e (read_digits-digit 0 n acc small ∙ ap (λ k. read_digits k acc) none_before)
digit_case false n acc rest e go = rw e (go e)

read_digits-decimal_onto :
    (fuel n : ℕ) (acc : Bytes)
    → n < fuel
    → read_digits 0 (decimal_onto fuel n acc) ≡ read_digits n acc
unfolding decimal_onto
read_digits-decimal_onto zero n acc h = absurd (omega arith)
read_digits-decimal_onto (suc fuel) n acc h = digit_case (ltb n 10) n acc _ refl (λ e.
    let large : 10 ≤ n = ground arith in
    let less : n / 10 < fuel = omega arith in
    let whole : n / 10 * 10 + n % 10 ≡ n = omega arith in
    read_digits-decimal_onto fuel (n / 10) ((b'0' + n % 10) ∷ acc) less
    ∙ read_digits-digit (n / 10) (n % 10) acc (omega arith)
    ∙ ap (λ k. read_digits k acc) whole)

abbrev Starts : Bytes → Type 0
Starts text = (c : ℕ) × (s : Bytes) × (text ≡ c ∷ s) × (is_digit c ≡ true)

start_case :
    (b : Bool) (n : ℕ) (acc rest : Bytes)
    → ltb n 10 ≡ b
    → Starts rest
    → Starts (if ltb n 10 then (b'0' + n) ∷ acc else rest)
start_case true n acc rest e go =
    let yes : is_digit (b'0' + n) ≡ true = ground arith in rw e (b'0' + n, acc, refl, yes)
start_case false n acc rest e go = rw e go

decimal_onto-Starts : (fuel n : ℕ) (acc : Bytes) → Starts acc → Starts (decimal_onto fuel n acc)
unfolding decimal_onto
decimal_onto-Starts zero n acc h = h
decimal_onto-Starts (suc fuel) n acc h =
    let digit : is_digit (b'0' + n % 10) ≡ true = ground arith in
    start_case (ltb n 10) n acc _ refl
      (decimal_onto-Starts fuel (n / 10) ((b'0' + n % 10) ∷ acc) (b'0' + n % 10, acc, refl, digit))

-- A decimal starts with a digit.
pub decimal-Starts : (n : ℕ) → (c : ℕ) × (s : Bytes) × (decimal n ≡ c ∷ s) × (is_digit c ≡ true)
unfolding decimal decimal_onto
decimal-Starts n =
    let digit : is_digit (b'0' + n % 10) ≡ true = ground arith in
    start_case (ltb n 10) n [] _ refl
      (decimal_onto-Starts n (n / 10) ((b'0' + n % 10) ∷ []) (b'0' + n % 10, [], refl, digit))

pub read_digits-decimal : (n : ℕ) → read_digits 0 (decimal n) ≡ n
unfolding decimal read_digits
read_digits-decimal n = read_digits-decimal_onto (suc n) n [] (omega arith)

atoi-digit : (c : ℕ) (s : Bytes) → is_digit c ≡ true → atoi (c ∷ s) ≡ pos (read_digits 0 (c ∷ s))
unfolding atoi read_signed
atoi-digit c s h =
    let blank : (c == b' ' || (leb 9 c && leb c 13)) ≡ false = ground arith in
    let minus : (c == b'-') ≡ false = ground arith in
    let plus : (c == b'+') ≡ false = ground arith in rw (blank, minus, plus) refl

-- `atoi` reads what `%d` writes.
pub atoi-decimal : (n : ℕ) → atoi (decimal n) ≡ pos n
atoi-decimal n =
    let (c, s, e, digit) = decimal-Starts n in
    ap atoi e
    ∙ atoi-digit c s digit
    ∙ ap (λ t. pos (read_digits 0 t)) (sym e)
    ∙ ap pos (read_digits-decimal n)
