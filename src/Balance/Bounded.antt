-- ===== src/Balance/Bounded.antt =====
-- The choice of a server while the sums fit an `int`: it is then the exact one.
use molten.Common.{
  true, false, ℕ, zero, suc, ◌-◌, ◌%◌, ◌^◌, ◌≡◌, refl, ap, sym, ◌∙◌, List, [], ◌∷◌, map, Option,
  none, some, arith, ℤ, pos, negsuc, ◌+ℤ◌, ◌-ℤ◌, ◌≤ℤ◌, +ℤ_parts, to_int32, int_of_bits, ok, All,
  ltb,
}
use mathlib.Core.Path.{subst}
use molten.Balance
use molten.Balance.{Server, Best, better, init_servers}
use molten.Balance.Exact
use molten.Balance.Next.{zero_left, +ℤ-assoc, sum_weight, raise_all-raised, raise_all-total}

-- An integer that fits an `int`.
abbrev pub IsInt : ℤ → Type 0
IsInt a = (a ≤ℤ pos 2147483647) × (negsuc 2147483647 ≤ℤ a)

to_int32-fits : (a : ℤ) → IsInt a → to_int32 a ≡ a
unfolding to_int32 int_of_bits
to_int32-fits (pos n) (h, k) =
    let same : n % 2 ^ 32 ≡ n = omega (arith, h) in
    let small : ltb n (2 ^ 31) ≡ true = ground arith in rw (same, small) refl
to_int32-fits (negsuc n) (h, k) =
    let same : n % 2 ^ 32 ≡ n = omega (arith, k) in
    let large : ltb (2 ^ 32 - 1 - n) (2 ^ 31) ≡ false = ground arith in
    let back : 2 ^ 32 - 1 - (2 ^ 32 - 1 - n) ≡ n = omega (arith, k) in rw (same, large, back) refl

-- No sum of a call overflows, when the weights add up to `w`.
pub record Fits (w : ℤ) (ss : List Server) : Type 0 where
  pub natural : All (λ s. pos 0 ≤ℤ s.weight) ss
  pub raised : All (λ s. IsInt (s.cur_weight +ℤ s.weight)) ss
  pub lowered : All (λ s. IsInt ((s.cur_weight +ℤ s.weight) -ℤ w)) ss
  pub total : w ≤ℤ pos 2147483647

raise-exact : (s : Server) → IsInt (s.cur_weight +ℤ s.weight) → Balance.raise s ≡ Exact.raise s
raise-exact s h = ap (λ c. record s { cur_weight = c }) (to_int32-fits (s.cur_weight +ℤ s.weight) h)

total_in :
    (t v x : ℤ)
    → pos 0 ≤ℤ t
    → pos 0 ≤ℤ v
    → pos 0 ≤ℤ x
    → t +ℤ (v +ℤ x) ≤ℤ pos 2147483647
    → IsInt (t +ℤ v) × (pos 0 ≤ℤ (t +ℤ v))
total_in t v x ht hv hx h =
    let below : t +ℤ v ≤ℤ pos 2147483647 =
      omega (arith, ht, hv, hx, h, +ℤ_parts t v, +ℤ_parts v x, +ℤ_parts t (v +ℤ x)) in
    let above : pos 0 ≤ℤ (t +ℤ v) = omega (arith, ht, hv, +ℤ_parts t v) in
    ((below, omega (arith, above)), above)

sum_natural : (ss : List Server) → All (λ s. pos 0 ≤ℤ s.weight) ss → pos 0 ≤ℤ sum_weight ss
sum_natural [] n = omega arith
sum_natural (s ∷ ss) (n, more) =
    omega (arith, n, sum_natural ss more, +ℤ_parts s.weight (sum_weight ss))

raise_all-exact :
    (i : ℕ) (total : ℤ) (best : Option Best) (ss : List Server)
    → All (λ s. pos 0 ≤ℤ s.weight) ss
    → All (λ s. IsInt (s.cur_weight +ℤ s.weight)) ss
    → pos 0 ≤ℤ total
    → total +ℤ sum_weight ss ≤ℤ pos 2147483647
    → Balance.raise_all i total best ss ≡ Exact.raise_all i total best ss
unfolding Balance.raise_all Exact.raise_all
raise_all-exact i total best [] n r h k = refl
raise_all-exact i total best (s ∷ ss) (n, more) (r, raised) h k =
    let (fits, h') = total_in total s.weight (sum_weight ss) h n (sum_natural ss more) k in
    let k' : (total +ℤ s.weight) +ℤ sum_weight ss ≤ℤ pos 2147483647 =
      subst (λ x. x ≤ℤ pos 2147483647) (sym (+ℤ-assoc total s.weight (sum_weight ss))) k in
    let rest =
      raise_all-exact (suc i) (total +ℤ s.weight) (better best i (s.cur_weight +ℤ s.weight)) ss more
        raised h' k' in
    rw (to_int32-fits (s.cur_weight +ℤ s.weight) r, to_int32-fits (total +ℤ s.weight) fits, rest)
      refl

lower-exact :
    (i : ℕ) (w : ℤ) (ss : List Server)
    → All (λ s. IsInt ((s.cur_weight +ℤ s.weight) -ℤ w)) ss
    → Balance.lower i w (map Exact.raise ss) ≡ Exact.lower i w (map Exact.raise ss)
unfolding Balance.lower Exact.lower
lower-exact i w [] h = refl
lower-exact zero w (s ∷ ss) (h, more) =
    ap (λ c. record s { cur_weight = c } ∷ map Exact.raise ss)
      (to_int32-fits ((s.cur_weight +ℤ s.weight) -ℤ w) h)
lower-exact (suc i) w (s ∷ ss) (h, more) = ap (λ l. Exact.raise s ∷ l) (lower-exact i w ss more)

choose-exact :
    (best : Option Best) (w : ℤ) (us ss : List Server)
    → us ≡ map Exact.raise ss
    → All (λ s. IsInt ((s.cur_weight +ℤ s.weight) -ℤ w)) ss
    → Balance.choose best w us ≡ Exact.choose best w us
choose-exact none w us ss e h = refl
choose-exact (some b) w us ss e h =
    subst (λ us. Balance.choose (some b) w us ≡ Exact.choose (some b) w us) (sym e)
      (ap (λ l. ok (b.index, l)) (lower-exact b.index w ss h))

pub get_next_server_index-exact :
    (ss : List Server)
    → Fits (sum_weight ss) ss
    → Balance.get_next_server_index ss ≡ Exact.get_next_server_index ss
unfolding Balance.get_next_server_index Exact.get_next_server_index
get_next_server_index-exact ss f =
    let sum = zero_left (sum_weight ss) in
    let bound = subst (λ x. x ≤ℤ pos 2147483647) (sym sum) f.total in
    let all = raise_all-exact 0 (pos 0) none ss f.natural f.raised (omega arith) bound in
    let r = Exact.raise_all 0 (pos 0) none ss in
    let total = raise_all-total 0 (pos 0) none ss ∙ sum in
    let low =
      subst (λ x. All (λ s. IsInt ((s.cur_weight +ℤ s.weight) -ℤ x)) ss) (sym total) f.lowered in
    ap (λ (x : List Server × ℤ × Option Best). Balance.choose x.2 x.1 x.0) all
    ∙ choose-exact r.2 r.1 r.0 ss (raise_all-raised 0 (pos 0) none ss) low
