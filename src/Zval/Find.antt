-- ===== src/Zval/Find.antt =====
-- What is found in a PHP array after a change.
use molten.Common.{
  ◌≡◌, refl, ap, true, false, Option, none, some, Bytes, bytes_eq, bytes_eq_refl, bytes_eq_sound,
  if◌then◌else◌, inl, inr, Bool-cases,
}
use molten.Zval.{
  Key, named, indexed, Zval, long, double, boolean, string, array, null, object, resource, Arr,
  empty, entry, has_name, find, add_assoc, set_array, in_array,
}

-- A value is found under the name that it was put under.
pub find-add_assoc : (name : Bytes) (v : Zval) (a : Arr) → find name (add_assoc name v a) ≡ some v
unfolding find add_assoc has_name
find-add_assoc name v empty = rw (bytes_eq_refl name) refl
find-add_assoc name v (entry k w a) = elim (Bool-cases (has_name name k)) [
  | inl e ↦ rw (e, e) refl
  | inr e ↦ rw (e, e) (find-add_assoc name v a)
]

-- A key that has one name has no other.
has_name-other :
    (name other : Bytes) (k : Key)
    → bytes_eq name other ≡ false
    → has_name name k ≡ true
    → has_name other k ≡ false
unfolding has_name
has_name-other name other (named n) ne h = rw (bytes_eq_sound n name h) ne
has_name-other name other (indexed i) ne h = refl

-- A value under one name does not change what is found under another.
pub find-add_assoc_other :
    (name other : Bytes) (v : Zval) (a : Arr)
    → bytes_eq name other ≡ false
    → find other (add_assoc name v a) ≡ find other a
unfolding find add_assoc has_name
find-add_assoc_other name other v empty ne = rw ne refl
find-add_assoc_other name other v (entry k w a) ne = elim (Bool-cases (has_name name k)) [
  | inl e ↦ rw (e, has_name-other name other k ne e) refl
  | inr e ↦
      rw e
        (ap (λ r. if has_name other k then some w else r) (find-add_assoc_other name other v a ne))
]

set_array-other :
    (o : Option Zval) (name other : Bytes) (f : Arr → Arr) (a : Arr)
    → bytes_eq name other ≡ false
    → find other (set_array o name f a) ≡ find other a
set_array-other none name other f a ne = refl
set_array-other (some (array inner)) name other f a ne =
    find-add_assoc_other name other (array (f inner)) a ne
set_array-other (some (long n)) name other f a ne = refl
set_array-other (some (double n)) name other f a ne = refl
set_array-other (some (boolean b)) name other f a ne = refl
set_array-other (some (string s)) name other f a ne = refl
set_array-other (some null) name other f a ne = refl
set_array-other (some (object h)) name other f a ne = refl
set_array-other (some (resource r)) name other f a ne = refl

-- A change inside the array under one name does not change what is found under another.
pub find-in_array_other :
    (name other : Bytes) (f : Arr → Arr) (a : Arr)
    → bytes_eq name other ≡ false
    → find other (in_array name f a) ≡ find other a
unfolding in_array
find-in_array_other name other f a ne = set_array-other (find name a) name other f a ne

-- The array under a name after a change inside it.
pub find-in_array :
    (name : Bytes) (f : Arr → Arr) (a inner : Arr)
    → find name a ≡ some (array inner)
    → find name (in_array name f a) ≡ some (array (f inner))
unfolding in_array
find-in_array name f a inner e = rw e (find-add_assoc name (array (f inner)) a)
