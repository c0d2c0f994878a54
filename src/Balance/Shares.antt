-- ===== src/Balance/Shares.antt =====
-- How fair the choice of servers is over many calls, when the weights are small for an `int`.
use mathlib.Core.Path.{subst}
use molten.Common.{
  ℕ, zero, suc, ◌≡◌, refl, ap, sym, ◌∙◌, List, [], ◌∷◌, arith, ℤ, pos, ◌+ℤ◌, ◌-ℤ◌, ◌≤ℤ◌, +ℤ_parts,
  pos_part, neg_part, -ℤ_parts, Result, ok, ◌>>=◌, All, length, Bytes,
}
use molten.Balance.{Server, init_servers, get_next_server_index}
use molten.Balance.Next.{sum_weight, sum_cur}
use molten.Balance.Sums.{weight_at}
use molten.Balance.Bounded.{IsInt, Fits, get_next_server_index-exact}
use molten.Balance.Fair
use molten.Balance.Fair.{
  Fairly, step, count, times, exact-fair, init_room, init_natural, init_balance,
}

-- The servers that `k` calls choose.
unfoldable pub picks : ℕ → List Server → Result (List ℕ × List Server)
picks zero ss = ok ([], ss)
picks (suc k) ss = do (i, ss1) ← get_next_server_index ss; (is, ss2) ← picks k ss1; ok (i ∷ is, ss2)

-- The room of a server sums up over the list.
rooms :
    (w : ℤ) (ss : List Server)
    → All (λ s. pos 1 ≤ℤ (s.cur_weight +ℤ w)) ss
    → pos 0 ≤ℤ (sum_cur ss +ℤ times (length ss) w)
rooms w [] room = omega (arith, +ℤ_parts (pos 0) (pos 0))
rooms w (s ∷ ss) (r, room) = omega (
  arith,
  r,
  rooms w ss room,
  +ℤ_parts s.cur_weight w,
  +ℤ_parts s.cur_weight (sum_cur ss),
  +ℤ_parts w (times (length ss) w),
  +ℤ_parts (sum_cur ss) (times (length ss) w),
  +ℤ_parts (s.cur_weight +ℤ sum_cur ss) (w +ℤ times (length ss) w),
)

cur_below :
    (w m : ℤ) (ss : List Server)
    → pos 0 ≤ℤ w
    → All (λ s. pos 1 ≤ℤ (s.cur_weight +ℤ w)) ss
    → sum_cur ss +ℤ times (length ss) w ≤ℤ m
    → All (λ s. s.cur_weight ≤ℤ m) ss
cur_below w m [] hw room h = tt
cur_below w m (s ∷ ss) hw (r, room) h =
    let a = +ℤ_parts s.cur_weight w in
    let b = +ℤ_parts s.cur_weight (sum_cur ss) in
    let c = +ℤ_parts w (times (length ss) w) in
    let d = +ℤ_parts (sum_cur ss) (times (length ss) w) in
    let e = +ℤ_parts (s.cur_weight +ℤ sum_cur ss) (w +ℤ times (length ss) w) in
    (
      omega (arith, h, hw, rooms w ss room, a, b, c, d, e),
      cur_below w m ss hw room (omega (arith, h, r, a, b, c, d, e)),
    )

sum_natural : (ss : List Server) → All (λ s. pos 0 ≤ℤ s.weight) ss → pos 0 ≤ℤ sum_weight ss
sum_natural [] n = omega arith
sum_natural (s ∷ ss) (n, more) =
    omega (arith, n, sum_natural ss more, +ℤ_parts s.weight (sum_weight ss))

weight_below :
    (w : ℤ) (ss : List Server)
    → All (λ s. pos 0 ≤ℤ s.weight) ss
    → sum_weight ss ≤ℤ w
    → All (λ s. s.weight ≤ℤ w) ss
weight_below w [] n h = tt
weight_below w (s ∷ ss) (n, more) h =
    let a = +ℤ_parts s.weight (sum_weight ss) in
    let rest = sum_natural ss more in
    (omega (arith, h, rest, a), weight_below w ss more (omega (arith, h, n, a)))

fits_one :
    (c v w m : ℤ)
    → pos 1 ≤ℤ (c +ℤ w)
    → pos 0 ≤ℤ v
    → c ≤ℤ m
    → v ≤ℤ w
    → m +ℤ w ≤ℤ pos 2147483647
    → w +ℤ w ≤ℤ pos 2147483647
    → IsInt (c +ℤ v) × IsInt ((c +ℤ v) -ℤ w)
fits_one c v w m r n hc hv big double =
    let x = +ℤ_parts c v in
    let y = -ℤ_parts (c +ℤ v) w in
    let z = +ℤ_parts c w in
    let p = +ℤ_parts m w in
    let q = +ℤ_parts w w in
    (
      (omega (arith, hc, hv, big, x, p), omega (arith, r, n, double, x, z, q)),
      (omega (arith, r, n, hc, hv, big, x, y, z, p), omega (arith, r, n, double, x, y, z, q)),
    )

fits_each :
    (w m : ℤ) (ss : List Server)
    → All (λ s. pos 1 ≤ℤ (s.cur_weight +ℤ w)) ss
    → All (λ s. pos 0 ≤ℤ s.weight) ss
    → All (λ s. s.cur_weight ≤ℤ m) ss
    → All (λ s. s.weight ≤ℤ w) ss
    → m +ℤ w ≤ℤ pos 2147483647
    → w +ℤ w ≤ℤ pos 2147483647
    → All (λ s. IsInt (s.cur_weight +ℤ s.weight)) ss
      × All (λ s. IsInt ((s.cur_weight +ℤ s.weight) -ℤ w)) ss
fits_each w m [] r n c v big double = (tt, tt)
fits_each w m (s ∷ ss) (r, room) (n, natural) (c, curs) (v, weights) big double =
    let (a, b) = fits_one s.cur_weight s.weight w m r n c v big double in
    let (raised, lowered) = fits_each w m ss room natural curs weights big double in
    ((a, raised), (b, lowered))

times_natural : (k : ℕ) (w : ℤ) → pos 0 ≤ℤ w → pos 0 ≤ℤ times k w
times_natural zero w h = omega arith
times_natural (suc k) w h = omega (arith, h, times_natural k w h, +ℤ_parts w (times k w))

Fairly-Fits :
    (w : ℤ) (ss : List Server)
    → Fairly w ss
    → pos 1 ≤ℤ w
    → times (suc (length ss)) w ≤ℤ pos 2147483647
    → Fits (sum_weight ss) ss
Fairly-Fits w [] f positive small =
    absurd (omega (arith, positive, ap pos_part f.total, ap neg_part f.total))
Fairly-Fits w (s ∷ ss) f positive small =
    let m = times (length ss) w in
    let a = +ℤ_parts w m in
    let b = +ℤ_parts w (w +ℤ m) in
    let natural : pos 0 ≤ℤ m = times_natural (length ss) w (omega (arith, positive)) in
    let sum : sum_cur (s ∷ ss) +ℤ (w +ℤ m) ≤ℤ (w +ℤ m) =
      omega (
        arith,
        ap pos_part f.balance,
        ap neg_part f.balance,
        +ℤ_parts (sum_cur (s ∷ ss)) (w +ℤ m),
      ) in
    let curs = cur_below w (w +ℤ m) (s ∷ ss) (omega (arith, positive)) f.room sum in
    let most : sum_weight (s ∷ ss) ≤ℤ w = omega (arith, ap pos_part f.total, ap neg_part f.total) in
    let weights = weight_below w (s ∷ ss) f.natural most in
    let big : (w +ℤ m) +ℤ w ≤ℤ pos 2147483647 = omega (arith, small, a, b, +ℤ_parts (w +ℤ m) w) in
    let double : w +ℤ w ≤ℤ pos 2147483647 = omega (arith, small, natural, a, b, +ℤ_parts w w) in
    let (raised, lowered) =
      fits_each w (w +ℤ m) (s ∷ ss) f.room f.natural curs weights big double in
    record {
      natural = f.natural;
      raised = raised;
      lowered =
          subst (λ x. All (λ u. IsInt ((u.cur_weight +ℤ u.weight) -ℤ x)) (s ∷ ss)) (sym f.total)
            lowered;
      total = omega (arith, small, natural, positive, most, a, b);
    }

picks-exact :
    (k : ℕ) (w : ℤ) (ss : List Server)
    → Fairly w ss
    → pos 1 ≤ℤ w
    → times (suc (length ss)) w ≤ℤ pos 2147483647
    → picks k ss ≡ Fair.picks k ss
unfolding picks Fair.picks
picks-exact zero w ss f positive small = refl
picks-exact (suc k) w ss f positive small =
    let (i, ss1, run, f1, len, same, one) = step w ss f positive in
    let here = get_next_server_index-exact ss (Fairly-Fits w ss f positive small) in
    let small1 = subst (λ n. times (suc n) w ≤ℤ pos 2147483647) (sym len) small in
    let rest = picks-exact k w ss1 f1 positive small1 in rw (here, run, rest) refl

-- From the start on, with weights that are not negative and not all 0, and whose total, taken once more
-- than there are servers, fits an `int`: each of `k` calls chooses a server, and no server is served
-- ahead of its share. The total of the weights, as often as server `j` was chosen, stays below `k` times
-- the weight of `j` plus the total.
pub picks-fair :
    (k : ℕ) (list : List (Bytes × ℤ))
    → All (λ (s : Bytes × ℤ). pos 0 ≤ℤ s.1) list
    → pos 1 ≤ℤ sum_weight (init_servers list)
    → times (suc (length (init_servers list))) (sum_weight (init_servers list)) ≤ℤ pos 2147483647
    → let w = sum_weight (init_servers list) in
      (is : List ℕ) × (ss' : List Server) × (picks k (init_servers list) ≡ ok (is, ss'))
      × ((j : ℕ)
          → (times (count j is) w +ℤ pos 1) ≤ℤ (times k (weight_at (init_servers list) j) +ℤ w))
picks-fair k list natural positive small =
    let ss = init_servers list in
    let w = sum_weight ss in
    let start : Fairly w ss = record {
      total = refl;
      balance = init_balance list;
      room = init_room w list positive;
      natural = init_natural list natural;
    } in
    let (is, ss', run, fair) = exact-fair k list natural positive in
    (is, ss', picks-exact k w ss start positive small ∙ run, fair)
