-- ===== src/Balance/Fair.antt =====
-- How fair the choice of servers is over many calls, without the bounds of an `int`.
use molten.Common.{
  ℕ, zero, suc, ◌≡◌, refl, ap, sym, ◌∙◌, Bool, true, false, some, List, [], ◌∷◌, map, arith, ℤ, pos,
  ◌+ℤ◌, ◌-ℤ◌, ◌≤ℤ◌, pos_part, neg_part, +ℤ_parts, -ℤ_parts, int_laws, Result, ok, ◌>>=◌, leb,
  leb→le, some_inj, inl, inr, Bool-cases, All, get_elem?, length, if◌then◌else◌, ◌==◌, Bytes,
}
use mathlib.Core.Path.{subst}
use molten.Balance.{Server, init_servers}
use molten.Balance.Exact.{raise, lower, get_next_server_index}
use molten.Balance.Next.{zero_left, sum_weight, sum_cur, exact-most}
use molten.Balance.Sums.{
  weight_at, cur_at, raised-cur_at, raised-weight_at, lower-weight_at, raised-sum_weight,
  lower-sum_weight, raised-sum_cur, lower-sum_cur, lower-cur_at, raised_get,
}

-- The servers that `k` calls choose.
unfoldable pub picks : ℕ → List Server → Result (List ℕ × List Server)
picks zero ss = ok ([], ss)
picks (suc k) ss = do (i, ss1) ← get_next_server_index ss; (is, ss2) ← picks k ss1; ok (i ∷ is, ss2)

-- How often a server was chosen, and a number added up so often.
abbrev pub count : ℕ → List ℕ → ℕ
count j [] = 0
count j (i ∷ is) = if i == j then suc (count j is) else count j is

abbrev pub times : ℕ → ℤ → ℤ
times zero a = pos 0
times (suc k) a = a +ℤ times k a

-- The state of the servers between two calls, when the weights add up to `w`.
pub record Fairly (w : ℤ) (ss : List Server) : Type 0 where
  pub total : sum_weight ss ≡ w
  pub balance : sum_cur ss ≡ pos 0
  pub room : All (λ s. pos 1 ≤ℤ (s.cur_weight +ℤ w)) ss
  pub natural : All (λ s. pos 0 ≤ℤ s.weight) ss

sum_bound :
    (m : ℤ) (ss : List Server)
    → m ≤ℤ pos 0
    → All (λ u. (raise u).cur_weight ≤ℤ m) ss
    → sum_cur (map raise ss) ≤ℤ pos 0
sum_bound m [] h most = omega arith
sum_bound m (s ∷ ss) h (first, most) =
    omega
      (arith, sum_bound m ss h most, first, +ℤ_parts (raise s).cur_weight (sum_cur (map raise ss)))

-- The greatest of the raised weights is above 0.
most_positive :
    (w m : ℤ) (ss : List Server)
    → Fairly w ss
    → pos 1 ≤ℤ w
    → All (λ u. (raise u).cur_weight ≤ℤ m) ss
    → pos 1 ≤ℤ m
most_positive w m ss f positive most =
    let sum : sum_cur (map raise ss) ≡ pos 0 +ℤ w =
      raised-sum_cur ss ∙ ap (λ x. x +ℤ sum_weight ss) f.balance ∙ ap (λ x. pos 0 +ℤ x) f.total in
    elim (Bool-cases (leb (pos_part m) (neg_part m))) [
      | inl e ↦ absurd (
          omega (
            arith,
            sum_bound m ss (omega (arith, leb→le (pos_part m) (neg_part m) e)) most,
            ap pos_part sum,
            ap neg_part sum,
            +ℤ_parts (pos 0) w,
          ))
      | inr e ↦ ground arith
    ]

raised_room :
    (w : ℤ) (s : Server)
    → pos 1 ≤ℤ (s.cur_weight +ℤ w)
    → pos 0 ≤ℤ s.weight
    → pos 1 ≤ℤ ((raise s).cur_weight +ℤ w)
raised_room w s room natural = omega (
  arith,
  room,
  natural,
  +ℤ_parts s.cur_weight w,
  +ℤ_parts s.cur_weight s.weight,
  +ℤ_parts (s.cur_weight +ℤ s.weight) w,
)

lowered_room : (a w : ℤ) → pos 1 ≤ℤ a → pos 1 ≤ℤ ((a -ℤ w) +ℤ w)
lowered_room a w h = omega (arith, h, -ℤ_parts a w, +ℤ_parts (a -ℤ w) w)

raised_rooms :
    (w : ℤ) (ss : List Server)
    → All (λ s. pos 1 ≤ℤ (s.cur_weight +ℤ w)) ss
    → All (λ s. pos 0 ≤ℤ s.weight) ss
    → All (λ s. pos 1 ≤ℤ (s.cur_weight +ℤ w)) (map raise ss)
raised_rooms w [] room natural = tt
raised_rooms w (s ∷ ss) (r, room) (n, natural) =
    (raised_room w s r n, raised_rooms w ss room natural)

lowered_rooms :
    (i : ℕ) (w : ℤ) (ss : List Server) (t : Server)
    → get_elem? ss i ≡ some t
    → pos 1 ≤ℤ (raise t).cur_weight
    → All (λ s. pos 1 ≤ℤ (s.cur_weight +ℤ w)) ss
    → All (λ s. pos 0 ≤ℤ s.weight) ss
    → All (λ s. pos 1 ≤ℤ (s.cur_weight +ℤ w)) (lower i w (map raise ss))
unfolding lower
lowered_rooms i w [] t e h room natural = ground arith
lowered_rooms zero w (s ∷ ss) t e h (r, room) (n, natural) =
    let h' : pos 1 ≤ℤ (raise s).cur_weight =
      subst (λ u. pos 1 ≤ℤ (raise u).cur_weight) (sym (some_inj e)) h in
    (lowered_room (raise s).cur_weight w h', raised_rooms w ss room natural)
lowered_rooms (suc i) w (s ∷ ss) t e h (r, room) (n, natural) =
    (raised_room w s r n, lowered_rooms i w ss t e h room natural)

raised_natural :
    (ss : List Server)
    → All (λ s. pos 0 ≤ℤ s.weight) ss
    → All (λ s. pos 0 ≤ℤ s.weight) (map raise ss)
raised_natural [] n = tt
raised_natural (s ∷ ss) (n, more) = (n, raised_natural ss more)

lowered_natural :
    (i : ℕ) (w : ℤ) (ss : List Server)
    → All (λ s. pos 0 ≤ℤ s.weight) ss
    → All (λ s. pos 0 ≤ℤ s.weight) (lower i w ss)
unfolding lower
lowered_natural i w [] n = tt
lowered_natural zero w (s ∷ ss) (n, more) = (n, more)
lowered_natural (suc i) w (s ∷ ss) (n, more) = (n, lowered_natural i w ss more)

weight_sum : (w x : ℤ) → x ≡ w → (pos 0 +ℤ x) -ℤ w ≡ pos 0
weight_sum w x e = grind int_laws

length-raised : (ss : List Server) → length (map raise ss) ≡ length ss
length-raised [] = refl
length-raised (s ∷ ss) = ap suc (length-raised ss)

length-lower : (i : ℕ) (w : ℤ) (ss : List Server) → length (lower i w (map raise ss)) ≡ length ss
unfolding lower
length-lower i w [] = refl
length-lower zero w (s ∷ ss) = ap suc (length-raised ss)
length-lower (suc i) w (s ∷ ss) = ap suc (length-lower i w ss)

-- One call keeps the state, and books what the chosen server was lowered by.
pub step :
    (w : ℤ) (ss : List Server)
    → Fairly w ss
    → pos 1 ≤ℤ w
    → (i : ℕ) × (ss' : List Server) × (get_next_server_index ss ≡ ok (i, ss'))
      × Fairly w ss'
      × (length ss' ≡ length ss)
      × ((j : ℕ) → weight_at ss' j ≡ weight_at ss j)
      × ((j : ℕ) → cur_at ss' j +ℤ (if i == j then w else pos 0) ≡ cur_at ss j +ℤ weight_at ss j)
step w [] f positive = absurd (omega (arith, positive, ap pos_part f.total, ap neg_part f.total))
step w (s ∷ more) f positive =
    let ss = s ∷ more in
    let (i, t, run, at, most) = exact-most s more in
    let up = most_positive w (raise t).cur_weight ss f positive most in
    let at' = raised_get ss i t at in
    (
      i,
      lower i w (map raise ss),
      run ∙ ap (λ x. ok (i, lower i x (map raise ss))) f.total,
      record {
        total = lower-sum_weight i w (map raise ss) ∙ raised-sum_weight ss ∙ f.total;
        balance =
            lower-sum_cur i w (map raise ss) (raise t) at'
            ∙ ap (λ x. x -ℤ w) (raised-sum_cur ss)
            ∙ ap (λ x. (x +ℤ sum_weight ss) -ℤ w) f.balance
            ∙ weight_sum w (sum_weight ss) f.total;
        room = lowered_rooms i w ss t at up f.room f.natural;
        natural = lowered_natural i w (map raise ss) (raised_natural ss f.natural);
      },
      length-lower i w ss,
      λ j. lower-weight_at i w (map raise ss) j ∙ raised-weight_at ss j,
      λ j. lower-cur_at i w (map raise ss) (raise t) j at' ∙ raised-cur_at ss j,
    )

times_if :
    (b : Bool) (n : ℕ) (w : ℤ)
    → times (if b then suc n else n) w ≡ (if b then w else pos 0) +ℤ times n w
times_if true n w = refl
times_if false n w = sym (zero_left (times n w))

book : (a v x c y z d : ℤ) → c +ℤ x ≡ a +ℤ v → d +ℤ y ≡ c +ℤ z → d +ℤ (x +ℤ y) ≡ a +ℤ (v +ℤ z)
book a v x c y z d e f = grind int_laws

-- Over `k` calls each weight is what it was, raised `k` times by the server's weight and lowered by the
-- total as often as the server was chosen.
ledger :
    (k : ℕ) (w : ℤ) (ss : List Server)
    → Fairly w ss
    → pos 1 ≤ℤ w
    → (is : List ℕ) × (ss' : List Server) × (picks k ss ≡ ok (is, ss'))
      × Fairly w ss'
      × ((j : ℕ) → cur_at ss' j +ℤ times (count j is) w ≡ cur_at ss j +ℤ times k (weight_at ss j))
unfolding picks
ledger zero w ss f positive = ([], ss, refl, f, λ j. refl)
ledger (suc k) w ss f positive =
    let (i, ss1, run, f1, len, same, one) = step w ss f positive in
    let (is, ss2, runs, f2, rest) = ledger k w ss1 f1 positive in
    (
      i ∷ is,
      ss2,
      rw (run, runs) refl,
      f2,
      λ j.
          ap (λ x. cur_at ss2 j +ℤ x) (times_if (i == j) (count j is) w)
          ∙ book (cur_at ss j) (weight_at ss j) (if i == j then w else pos 0) (cur_at ss1 j)
              (times (count j is) w) (times k (weight_at ss j)) (cur_at ss2 j) (one j)
              (rest j ∙ ap (λ x. cur_at ss1 j +ℤ times k x) (same j)),
    )

pub init_room :
    (w : ℤ) (list : List (Bytes × ℤ))
    → pos 1 ≤ℤ w
    → All (λ s. pos 1 ≤ℤ (s.cur_weight +ℤ w)) (init_servers list)
unfolding init_servers
init_room w [] h = tt
init_room w ((name, v) ∷ more) h = (omega (arith, h, +ℤ_parts (pos 0) w), init_room w more h)

pub init_natural :
    (list : List (Bytes × ℤ))
    → All (λ (s : Bytes × ℤ). pos 0 ≤ℤ s.1) list
    → All (λ s. pos 0 ≤ℤ s.weight) (init_servers list)
unfolding init_servers
init_natural [] h = tt
init_natural ((name, v) ∷ more) (n, h) = (n, init_natural more h)

pub init_balance : (list : List (Bytes × ℤ)) → sum_cur (init_servers list) ≡ pos 0
unfolding init_servers
init_balance [] = refl
init_balance ((name, v) ∷ more) = zero_left (sum_cur (init_servers more)) ∙ init_balance more

init_cur_at : (list : List (Bytes × ℤ)) (j : ℕ) → cur_at (init_servers list) j ≡ pos 0
unfolding init_servers
init_cur_at [] j = refl
init_cur_at ((name, v) ∷ more) zero = refl
init_cur_at ((name, v) ∷ more) (suc j) = init_cur_at more j

room_at :
    (w : ℤ) (ss : List Server) (j : ℕ)
    → pos 1 ≤ℤ w
    → All (λ s. pos 1 ≤ℤ (s.cur_weight +ℤ w)) ss
    → pos 1 ≤ℤ (cur_at ss j +ℤ w)
room_at w [] j h room = omega (arith, h, +ℤ_parts (pos 0) w)
room_at w (s ∷ ss) zero h (r, room) = r
room_at w (s ∷ ss) (suc j) h (r, room) = room_at w ss j h room

fair_bound : (c t v w : ℤ) → c +ℤ t ≡ pos 0 +ℤ v → pos 1 ≤ℤ (c +ℤ w) → (t +ℤ pos 1) ≤ℤ (v +ℤ w)
fair_bound c t v w e h = omega (
  arith,
  ap pos_part e,
  ap neg_part e,
  h,
  +ℤ_parts c t,
  +ℤ_parts (pos 0) v,
  +ℤ_parts c w,
  +ℤ_parts t (pos 1),
  +ℤ_parts v w,
)

-- From the start on, with weights that are not negative and not all 0, each of `k` calls chooses a
-- server, and no server is served ahead of its share: the total of the weights, as often as server `j`
-- was chosen, stays below `k` times the weight of `j` plus the total.
pub exact-fair :
    (k : ℕ) (list : List (Bytes × ℤ))
    → All (λ (s : Bytes × ℤ). pos 0 ≤ℤ s.1) list
    → pos 1 ≤ℤ sum_weight (init_servers list)
    → let w = sum_weight (init_servers list) in
      (is : List ℕ) × (ss' : List Server) × (picks k (init_servers list) ≡ ok (is, ss'))
      × ((j : ℕ)
          → (times (count j is) w +ℤ pos 1) ≤ℤ (times k (weight_at (init_servers list) j) +ℤ w))
exact-fair k list natural positive =
    let ss = init_servers list in
    let w = sum_weight ss in
    let start : Fairly w ss = record {
      total = refl;
      balance = init_balance list;
      room = init_room w list positive;
      natural = init_natural list natural;
    } in
    let (is, ss', run, f, book') = ledger k w ss start positive in
    (
      is,
      ss',
      run,
      λ j.
          fair_bound (cur_at ss' j) (times (count j is) w) (times k (weight_at ss j)) w
            (book' j ∙ ap (λ x. x +ℤ times k (weight_at ss j)) (init_cur_at list j))
            (room_at w ss' j positive f.room),
    )
