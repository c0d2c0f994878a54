-- ===== src/Balance.antt =====
-- common/load_balance.c: the choice of a server by smooth weighted round robin. A sum that does not fit an
-- `int` wraps.
pub mod Exact
pub mod Next
pub mod Sums
pub mod Fair
pub mod Bounded
pub mod Shares
use molten.Common.{
  ℕ, zero, suc, ◌+◌, ◌-◌, ◌*◌, Bool, true, false, not, ◌&&◌, ◌||◌, Option, none, some, List, [],
  ◌∷◌, Bytes, if◌then◌else◌, ltb, ℤ, pos, negsuc, to_int32, ◌+ℤ◌, ◌-ℤ◌, ltb_ℤ, Result, ok, fault,
  ◌>>=◌, get_elem?, set,
}

abbrev pub default_weight : ℤ
default_weight = pos 50

-- `server`
pub record Server : Type 0 where
  pub weight : ℤ
  pub cur_weight : ℤ
  pub name : Bytes

-- `initServers`: a name and its weight for each server. A name has the 32 bytes that are copied.
unfoldable pub init_servers : List (Bytes × ℤ) → List Server
init_servers [] = []
init_servers ((name, weight) ∷ more) =
    record { weight = weight; cur_weight = pos 0; name = name } ∷ init_servers more

-- `initDefaultServers`
unfoldable pub init_default_servers : List Bytes → List Server
init_default_servers [] = []
init_default_servers (name ∷ more) =
    record { weight = default_weight; cur_weight = pos 0; name = name } ∷ init_default_servers more

-- `ss[i].cur_weight += ss[i].weight`
abbrev pub raise : Server → Server
raise s = record s { cur_weight = to_int32 (s.cur_weight +ℤ s.weight) }

-- The best server so far: its index and its weight. `none` is the index -1.
pub record Best : Type 0 where
  pub index : ℕ
  pub best_weight : ℤ

-- `index == -1 || ss[index].cur_weight < ss[i].cur_weight`
abbrev pub better : Option Best → ℕ → ℤ → Option Best
better none i w = some (record { index = i; best_weight = w })
better (some b) i w =
    if ltb_ℤ b.best_weight w then some (record { index = i; best_weight = w }) else some b

-- The loop of `getNextServerIndex` from index `i` on: the servers, the total of the weights and the
-- best one.
unfoldable pub raise_all : ℕ → ℤ → Option Best → List Server → List Server × ℤ × Option Best
raise_all i total best [] = ([], total, best)
raise_all i total best (s ∷ ss) =
    let (ss', total', best') =
      raise_all (suc i) (to_int32 (total +ℤ s.weight)) (better best i (raise s).cur_weight) ss in
    (raise s ∷ ss', total', best')

-- `ss[index].cur_weight -= total`
unfoldable pub lower : ℕ → ℤ → List Server → List Server
lower i total [] = []
lower zero total (s ∷ ss) = record s { cur_weight = to_int32 (s.cur_weight -ℤ total) } ∷ ss
lower (suc i) total (s ∷ ss) = s ∷ lower i total ss

-- Behind the loop; without a server the index is -1, and the element in front of the array is written.
abbrev pub choose : Option Best → ℤ → List Server → Result (ℕ × List Server)
choose none total ss = fault
choose (some b) total ss = ok (b.index, lower b.index total ss)

-- `getNextServerIndex`
unfoldable pub get_next_server_index : List Server → Result (ℕ × List Server)
get_next_server_index ss =
    let (ss', total, best) = raise_all 0 (pos 0) none ss in choose best total ss'
