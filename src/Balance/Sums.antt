-- ===== src/Balance/Sums.antt =====
-- What raising the weights and lowering one do to each weight and to the sums.
use molten.Common.{
  ℕ, zero, suc, ◌≡◌, refl, ap, false, some, List, [], ◌∷◌, map, arith, ℤ, pos, ◌+ℤ◌, ◌-ℤ◌, int_laws,
  some_inj, get_elem?, if◌then◌else◌, ◌==◌,
}
use molten.Balance.{Server}
use molten.Balance.Exact.{raise, lower}
use molten.Balance.Next.{sum_weight, sum_cur}

abbrev pub weight_at : List Server → ℕ → ℤ
weight_at [] j = pos 0
weight_at (s ∷ ss) zero = s.weight
weight_at (s ∷ ss) (suc j) = weight_at ss j

abbrev pub cur_at : List Server → ℕ → ℤ
cur_at [] j = pos 0
cur_at (s ∷ ss) zero = s.cur_weight
cur_at (s ∷ ss) (suc j) = cur_at ss j

no_sum : pos 0 ≡ pos 0 +ℤ pos 0
no_sum = grind int_laws

pub raised-cur_at :
    (ss : List Server) (j : ℕ) → cur_at (map raise ss) j ≡ cur_at ss j +ℤ weight_at ss j
raised-cur_at [] j = no_sum
raised-cur_at (s ∷ ss) zero = refl
raised-cur_at (s ∷ ss) (suc j) = raised-cur_at ss j

pub raised-weight_at : (ss : List Server) (j : ℕ) → weight_at (map raise ss) j ≡ weight_at ss j
raised-weight_at [] j = refl
raised-weight_at (s ∷ ss) zero = refl
raised-weight_at (s ∷ ss) (suc j) = raised-weight_at ss j

pub lower-weight_at :
    (i : ℕ) (w : ℤ) (ss : List Server) (j : ℕ) → weight_at (lower i w ss) j ≡ weight_at ss j
unfolding lower
lower-weight_at i w [] j = refl
lower-weight_at zero w (s ∷ ss) zero = refl
lower-weight_at zero w (s ∷ ss) (suc j) = refl
lower-weight_at (suc i) w (s ∷ ss) zero = refl
lower-weight_at (suc i) w (s ∷ ss) (suc j) = lower-weight_at i w ss j

pub raised-sum_weight : (ss : List Server) → sum_weight (map raise ss) ≡ sum_weight ss
raised-sum_weight [] = refl
raised-sum_weight (s ∷ ss) = ap (λ w. s.weight +ℤ w) (raised-sum_weight ss)

pub lower-sum_weight :
    (i : ℕ) (w : ℤ) (ss : List Server) → sum_weight (lower i w ss) ≡ sum_weight ss
unfolding lower
lower-sum_weight i w [] = refl
lower-sum_weight zero w (s ∷ ss) = refl
lower-sum_weight (suc i) w (s ∷ ss) = ap (λ x. s.weight +ℤ x) (lower-sum_weight i w ss)

swap_sums : (a b x y z : ℤ) → z ≡ x +ℤ y → (a +ℤ b) +ℤ z ≡ (a +ℤ x) +ℤ (b +ℤ y)
swap_sums a b x y z e = grind int_laws

pub raised-sum_cur : (ss : List Server) → sum_cur (map raise ss) ≡ sum_cur ss +ℤ sum_weight ss
raised-sum_cur [] = no_sum
raised-sum_cur (s ∷ ss) =
    swap_sums s.cur_weight s.weight (sum_cur ss) (sum_weight ss) (sum_cur (map raise ss))
      (raised-sum_cur ss)

less_first : (a w x : ℤ) → (a -ℤ w) +ℤ x ≡ (a +ℤ x) -ℤ w
less_first a w x = grind int_laws

less_rest : (a w x z : ℤ) → z ≡ x -ℤ w → a +ℤ z ≡ (a +ℤ x) -ℤ w
less_rest a w x z e = grind int_laws

pub lower-sum_cur :
    (i : ℕ) (w : ℤ) (ss : List Server) (t : Server)
    → get_elem? ss i ≡ some t
    → sum_cur (lower i w ss) ≡ sum_cur ss -ℤ w
unfolding lower
lower-sum_cur i w [] t e = ground arith
lower-sum_cur zero w (s ∷ ss) t e = less_first s.cur_weight w (sum_cur ss)
lower-sum_cur (suc i) w (s ∷ ss) t e =
    less_rest s.cur_weight w (sum_cur ss) (sum_cur (lower i w ss)) (lower-sum_cur i w ss t e)

==_suc : (i j : ℕ) → (suc i == suc j) ≡ (i == j)
==_suc i j = ground arith

back : (a w : ℤ) → (a -ℤ w) +ℤ w ≡ a
back a w = grind int_laws

nothing : (a : ℤ) → a +ℤ pos 0 ≡ a
nothing a = grind int_laws

-- The lowered weight and what it was lowered by.
pub lower-cur_at :
    (i : ℕ) (w : ℤ) (ss : List Server) (t : Server) (j : ℕ)
    → get_elem? ss i ≡ some t
    → cur_at (lower i w ss) j +ℤ (if i == j then w else pos 0) ≡ cur_at ss j
unfolding lower
lower-cur_at i w [] t j e = ground arith
lower-cur_at zero w (s ∷ ss) t zero e = back s.cur_weight w
lower-cur_at zero w (s ∷ ss) t (suc j) e =
    let ne : (0 == suc j) ≡ false = ground arith in rw ne (nothing (cur_at ss j))
lower-cur_at (suc i) w (s ∷ ss) t zero e =
    let ne : (suc i == 0) ≡ false = ground arith in rw ne (nothing s.cur_weight)
lower-cur_at (suc i) w (s ∷ ss) t (suc j) e = rw (==_suc i j) (lower-cur_at i w ss t j e)

pub raised_get :
    (ss : List Server) (i : ℕ) (t : Server)
    → get_elem? ss i ≡ some t
    → get_elem? (map raise ss) i ≡ some (raise t)
raised_get [] i t e = ground arith
raised_get (s ∷ ss) zero t e = ap (λ u. some (raise u)) (some_inj e)
raised_get (s ∷ ss) (suc i) t e = raised_get ss i t e
