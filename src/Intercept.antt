-- ===== src/Intercept.antt =====
-- The tables of molten_intercept.c: which calls of PHP functions are traced.
pub mod Hit
pub mod Tables
pub mod Reached
use molten.Common.{
  Bool, true, false, Option, none, some, List, [], ◌∷◌, ◌++◌, ◌||◌, Bytes, codes, bytes_eq,
  if◌then◌else◌, Result, ok, fault, ◌>>=◌,
}

-- `mo_interceptor_t`: `tags` holds class names and names of plain functions, `elements` what to do at
-- `class@method` and at a plain function. `E` stands for `mo_interceptor_ele_t`.
pub record Interceptor (E : Type 0) : Type 0 where
  pub tags : List Bytes
  pub elements : List (Bytes × E)

-- A hash table's `zend_hash_exists` and `zend_hash_find`.
unfoldable pub has_tag : Bytes → List Bytes → Bool
has_tag key [] = false
has_tag key (tag ∷ tags) = bytes_eq tag key || has_tag key tags

-- The key of a method, `class@method`; the name of a method must not be NULL.
unfoldable pub method_key : Bytes → Option Bytes → Result Bytes
method_key class_name none = fault
method_key class_name (some name) = ok (class_name ++ codes "@" ++ name)

module _ {E : Type 0} where
  unfoldable pub find_element : Bytes → List (Bytes × E) → Option E
  find_element key [] = none
  find_element key ((name, e) ∷ elements) =
      if bytes_eq name key then some e else find_element key elements

  -- `mo_intercept_hit`: the element for a call, `none` if the call is not traced.
  unfoldable pub hit : Interceptor E → Option Bytes → Option Bytes → Result (Option E)
  hit pit none none = ok none
  hit pit none (some name) =
      if has_tag name pit.tags then ok (find_element name pit.elements) else ok none
  hit pit (some class_name) function_name =
      if has_tag class_name pit.tags
      then (do key ← method_key class_name function_name; ok (find_element key pit.elements))
      else ok none
