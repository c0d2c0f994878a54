-- ===== src/Balance/Next.antt =====
-- Which server is chosen, and what that does to the weights, without the bounds of an `int`.
use molten.Common.{
  ℕ, suc, ◌+◌, ◌≡◌, refl, ap, sym, ◌∙◌, ◌⊎◌, inl, inr, true, false, Option, some, List, [], ◌∷◌,
  map, arith, ℤ, pos, ◌+ℤ◌, ◌≤ℤ◌, int_laws, ok, All, get_elem?, Bool-cases, ltb_ℤ, ltb→lt,
}
use mathlib.Core.Path.{subst}
use molten.Balance.{Server, Best, better}
use molten.Balance.Exact.{raise, raise_all, lower, choose, get_next_server_index}

abbrev pub sum_weight : List Server → ℤ
sum_weight [] = pos 0
sum_weight (s ∷ ss) = s.weight +ℤ sum_weight ss

abbrev pub sum_cur : List Server → ℤ
sum_cur [] = pos 0
sum_cur (s ∷ ss) = s.cur_weight +ℤ sum_cur ss

pub raise_all-raised :
    (i : ℕ) (total : ℤ) (best : Option Best) (ss : List Server)
    → (raise_all i total best ss).0 ≡ map raise ss
unfolding raise_all
raise_all-raised i total best [] = refl
raise_all-raised i total best (s ∷ ss) =
    ap (λ t. raise s ∷ t)
      (raise_all-raised (suc i) (total +ℤ s.weight) (better best i (raise s).cur_weight) ss)

zero_right : (a : ℤ) → a ≡ a +ℤ pos 0
zero_right a = grind int_laws

pub zero_left : (a : ℤ) → pos 0 +ℤ a ≡ a
zero_left a = grind int_laws

pub +ℤ-assoc : (a b c : ℤ) → (a +ℤ b) +ℤ c ≡ a +ℤ (b +ℤ c)
+ℤ-assoc a b c = grind int_laws

pub raise_all-total :
    (i : ℕ) (total : ℤ) (best : Option Best) (ss : List Server)
    → (raise_all i total best ss).1 ≡ total +ℤ sum_weight ss
unfolding raise_all
raise_all-total i total best [] = zero_right total
raise_all-total i total best (s ∷ ss) =
    raise_all-total (suc i) (total +ℤ s.weight) (better best i (raise s).cur_weight) ss
    ∙ +ℤ-assoc total s.weight (sum_weight ss)

-- What the loop makes of the best one, `b`, over the servers from index `i` on.
record Found (i : ℕ) (ss : List Server) (b b' : Best) : Type 0 where
  above : b.best_weight ≤ℤ b'.best_weight
  most : All (λ s. (raise s).cur_weight ≤ℤ b'.best_weight) ss
  place :
      (b' ≡ b)
      ⊎ ((j : ℕ) × (s : Server) × (b'.index ≡ i + j)
          × (get_elem? ss j ≡ some s)
          × ((raise s).cur_weight ≡ b'.best_weight))

abbrev here : ℕ → Server → Best
here i s = record { index = i; best_weight = (raise s).cur_weight }

-- The server at index `i` is the best one so far, and those behind it are looked at.
Found-here :
    (i : ℕ) (s : Server) (ss : List Server) (b b' : Best)
    → b.best_weight ≤ℤ (raise s).cur_weight
    → Found (suc i) ss (here i s) b'
    → Found i (s ∷ ss) b b'
Found-here i s ss b b' le f = record {
  above = omega (arith, f.above);
  most = (f.above, f.most);
  place = elim f.place [
    | inl e ↦ inr (0, s, ap (λ x. x.index) e ∙ omega arith, refl, sym (ap (λ x. x.best_weight) e))
    | inr (j, t, at, e, w) ↦ inr (suc j, t, omega (arith, at), e, w)
  ];
}

-- The server at index `i` is not better.
Found-past :
    (i : ℕ) (s : Server) (ss : List Server) (b b' : Best)
    → (raise s).cur_weight ≤ℤ b.best_weight
    → Found (suc i) ss b b'
    → Found i (s ∷ ss) b b'
Found-past i s ss b b' le f = record {
  above = f.above;
  most = (omega (arith, f.above), f.most);
  place = elim f.place [
    | inl e ↦ inl e
    | inr (j, t, at, e, w) ↦ inr (suc j, t, omega (arith, at), e, w)
  ];
}

ltb_ℤ-le : (a b : ℤ) → ltb_ℤ a b ≡ true → a ≤ℤ b
ltb_ℤ-le a b h = omega (arith, ltb→lt _ _ h)

ltb_ℤ-ge : (a b : ℤ) → ltb_ℤ a b ≡ false → b ≤ℤ a
ltb_ℤ-ge a b h = ground arith

raise_all-Found :
    (i : ℕ) (total : ℤ) (b : Best) (ss : List Server)
    → (b' : Best) × ((raise_all i total (some b) ss).2 ≡ some b') × Found i ss b b'
unfolding raise_all
raise_all-Found i total b [] =
    (b, refl, record { above = omega arith; most = tt; place = inl refl })
raise_all-Found i total b (s ∷ ss) = elim (Bool-cases (ltb_ℤ b.best_weight (raise s).cur_weight)) [
  | inl e ↦
      let (b', found, f) = raise_all-Found (suc i) (total +ℤ s.weight) (here i s) ss in
      (b', rw e found, Found-here i s ss b b' (ltb_ℤ-le b.best_weight (raise s).cur_weight e) f)
  | inr e ↦
      let (b', found, f) = raise_all-Found (suc i) (total +ℤ s.weight) b ss in
      (b', rw e found, Found-past i s ss b b' (ltb_ℤ-ge b.best_weight (raise s).cur_weight e) f)
]

-- The best of all, when the first is at index 0.
choose-at :
    (b : Best) (total : ℤ) (ss : List Server) (j : ℕ)
    → b.index ≡ j
    → choose (some b) total ss ≡ ok (j, lower j total ss)
choose-at b total ss j e = ap (λ i. ok (i, lower i total ss)) e

-- Where the best of all stands.
placed :
    (s : Server) (ss : List Server) (b : Best)
    → Found 1 ss (here 0 s) b
    → (j : ℕ) × (t : Server) × (b.index ≡ j)
      × (get_elem? (s ∷ ss) j ≡ some t)
      × ((raise t).cur_weight ≡ b.best_weight)
placed s ss b f = elim f.place [
  | inl e ↦ (0, s, ap (λ x. x.index) e, refl, sym (ap (λ x. x.best_weight) e))
  | inr (j, t, at, e, w) ↦ (suc j, t, omega (arith, at), e, w)
]

-- With a server to choose from, the index of one is returned whose weight, when every server's has been
-- raised by its own, no server's exceeds, and of the raised weights this one is lowered by the total.
pub exact-most :
    (s : Server) (ss : List Server)
    → (i : ℕ) × (t : Server) × (get_next_server_index (s ∷ ss)
        ≡ ok (i, lower i (sum_weight (s ∷ ss)) (map raise (s ∷ ss))))
      × (get_elem? (s ∷ ss) i ≡ some t)
      × All (λ u. (raise u).cur_weight ≤ℤ (raise t).cur_weight) (s ∷ ss)
unfolding get_next_server_index raise_all
exact-most s ss =
    let first = here 0 s in
    let (b, found, f) = raise_all-Found 1 (pos 0 +ℤ s.weight) first ss in
    let raised = raise_all-raised 1 (pos 0 +ℤ s.weight) (some first) ss in
    let total =
      raise_all-total 1 (pos 0 +ℤ s.weight) (some first) ss
      ∙ ap (λ w. w +ℤ sum_weight ss) (zero_left s.weight) in
    let run =
      (ap
          (λ o.
            choose o (raise_all 1 (pos 0 +ℤ s.weight) (some first) ss).1
              (raise s ∷ (raise_all 1 (pos 0 +ℤ s.weight) (some first) ss).0))
          found
        ∙ ap
            (λ w. choose (some b) w (raise s ∷ (raise_all 1 (pos 0 +ℤ s.weight) (some first) ss).0))
            total
        ∙ ap (λ r. choose (some b) (sum_weight (s ∷ ss)) (raise s ∷ r)) raised) in
    let (j, t, at, e, w) = placed s ss b f in
    (
      j,
      t,
      run ∙ choose-at b (sum_weight (s ∷ ss)) (map raise (s ∷ ss)) j at,
      e,
      subst (λ x. All (λ u. (raise u).cur_weight ≤ℤ x) (s ∷ ss)) (sym w) (f.above, f.most),
    )
