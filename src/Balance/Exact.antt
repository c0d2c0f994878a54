-- ===== src/Balance/Exact.antt =====
-- The choice of a server as it would be with integers that have no bound.
use molten.Common.{
  ℕ, zero, suc, List, [], ◌∷◌, Option, none, some, ℤ, pos, ◌+ℤ◌, ◌-ℤ◌, Result, ok, fault,
}
use molten.Balance.{Server, Best, better}

abbrev pub raise : Server → Server
raise s = record s { cur_weight = s.cur_weight +ℤ s.weight }

unfoldable pub raise_all : ℕ → ℤ → Option Best → List Server → List Server × ℤ × Option Best
raise_all i total best [] = ([], total, best)
raise_all i total best (s ∷ ss) =
    let (ss', total', best') =
      raise_all (suc i) (total +ℤ s.weight) (better best i (raise s).cur_weight) ss in
    (raise s ∷ ss', total', best')

unfoldable pub lower : ℕ → ℤ → List Server → List Server
lower i total [] = []
lower zero total (s ∷ ss) = record s { cur_weight = s.cur_weight -ℤ total } ∷ ss
lower (suc i) total (s ∷ ss) = s ∷ lower i total ss

abbrev pub choose : Option Best → ℤ → List Server → Result (ℕ × List Server)
choose none total ss = fault
choose (some b) total ss = ok (b.index, lower b.index total ss)

unfoldable pub get_next_server_index : List Server → Result (ℕ × List Server)
get_next_server_index ss =
    let (ss', total, best) = raise_all 0 (pos 0) none ss in choose best total ss'
