-- ===== src/Zval.antt =====
-- PHP values as far as molten builds them: the arrays that become spans, and the engine's operations
-- on them that molten_span.c calls.
pub mod Find
use molten.Common.{
  ℕ, suc, ◌+◌, ◌*◌, Bool, true, false, Option, none, some, List, [], ◌∷◌, Bytes, bytes_eq,
  if◌then◌else◌, ltb, ◌==◌, ℤ,
}

-- A key of a PHP array. The names that molten uses are no numerals, which PHP would turn into indices.
pub data Key : Type 0 where
  named : Bytes → Key
  indexed : ℕ → Key

-- A `zval`, and the elements of an array in their order. A `double` is a whole number, as the times are;
-- an object and a resource are given by their handles.
mutual
  pub data Zval : Type 0 where
    long : ℤ → Zval
    double : ℕ → Zval
    boolean : Bool → Zval
    string : Bytes → Zval
    array : Arr → Zval
    null : Zval
    object : ℕ → Zval
    resource : ℤ → Zval

  pub data Arr : Type 0 where
    empty : Arr
    entry : Key → Zval → Arr → Arr

unfoldable pub has_name : Bytes → Key → Bool
has_name name (named other) = bytes_eq other name
has_name name (indexed i) = false

-- `mo_zend_hash_zval_find`: `none` is FAILURE.
unfoldable pub find : Bytes → Arr → Option Zval
find name empty = none
find name (entry k v a) = if has_name name k then some v else find name a

-- `add_assoc_zval` and its like: the value under a name is put in place of the old one, or at the end.
unfoldable pub add_assoc : Bytes → Zval → Arr → Arr
add_assoc name new empty = entry (named name) new empty
add_assoc name new (entry k v a) =
    if has_name name k then entry k new a else entry k v (add_assoc name new a)

-- The index that the next element gets: one more than the greatest.
unfoldable pub next_index : Arr → ℕ
next_index empty = 0
next_index (entry (named name) v a) = next_index a
next_index (entry (indexed i) v a) = if ltb i (next_index a) then next_index a else suc i

unfoldable pub append : Arr → Key → Zval → Arr
append empty k v = entry k v empty
append (entry k' v' a) k v = entry k' v' (append a k v)

-- `add_next_index_zval`
unfoldable pub add_next_index : Zval → Arr → Arr
add_next_index v a = append a (indexed (next_index a)) v

-- A change of the array under a name, in place; `none` is what was not found, which changes nothing.
abbrev pub set_array : Option Zval → Bytes → (Arr → Arr) → Arr → Arr
set_array none name f a = a
set_array (some (array inner)) name f a = add_assoc name (array (f inner)) a
set_array (some (long n)) name f a = a
set_array (some (double n)) name f a = a
set_array (some (boolean b)) name f a = a
set_array (some (string s)) name f a = a
set_array (some null) name f a = a
set_array (some (object h)) name f a = a
set_array (some (resource r)) name f a = a

unfoldable pub in_array : Bytes → (Arr → Arr) → Arr → Arr
in_array name f a = set_array (find name a) name f a

-- The elements of the array under a name, if there is one.
abbrev pub as_array : Option Zval → Option Arr
as_array none = none
as_array (some (array a)) = some a
as_array (some (long n)) = none
as_array (some (double n)) = none
as_array (some (boolean b)) = none
as_array (some (string s)) = none
as_array (some null) = none
as_array (some (object h)) = none
as_array (some (resource r)) = none

-- `mo_zend_hash_index_zval_find`
unfoldable pub find_index : ℕ → Arr → Option Zval
find_index i empty = none
find_index i (entry (named name) v a) = find_index i a
find_index i (entry (indexed j) v a) = if j == i then some v else find_index i a

-- The values in their order; their number is `zend_hash_num_elements`.
unfoldable pub values : Arr → List Zval
values empty = []
values (entry k v a) = v ∷ values a
