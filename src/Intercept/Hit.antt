-- ===== src/Intercept/Hit.antt =====
-- When `mo_intercept_hit` gives an answer, and which.
use molten.Common.{◌≡◌, ◌≢◌, refl, Bool-cases, inl, inr, Option, none, some, ◌++◌, Bytes, codes, ok}
use molten.Intercept.{Interceptor, has_tag, find_element, method_key, hit}

module _ {E : Type 0} (pit : Interceptor E) where
  -- Only a method without a name is a fault.
  pub hit-ok :
      (class_name function_name : Option Bytes)
      → (class_name ≢ none → function_name ≢ none)
      → (r : Option E) × (hit pit class_name function_name ≡ ok r)
  unfolding hit method_key
  hit-ok none none named = (none, refl)
  hit-ok none (some name) named = elim (Bool-cases (has_tag name pit.tags)) [
    | inl e ↦ (find_element name pit.elements, rw e)
    | inr e ↦ (none, rw e)
  ]
  hit-ok (some c) none named = absurd (named (λ e. cc) refl)
  hit-ok (some c) (some name) named = elim (Bool-cases (has_tag c pit.tags)) [
    | inl e ↦ (find_element (c ++ codes "@" ++ name) pit.elements, rw e)
    | inr e ↦ (none, rw e)
  ]
