-- ===== src/Common/Faults.antt =====
-- What a piece of C code does: it runs to its end, or it reads or writes where it must not (a NULL
-- pointer, a place outside an object, a division by zero).

pub data Result {ℓ} (A : Type ℓ) : Type ℓ where
  fault : Result A
  ok : A → Result A

-- What comes after a fault is not reached.
module _ {ℓ κ} {A : Type ℓ} {B : Type κ} where
  infixl 5 ◌>>=◌
  abbrev pub ◌>>=◌ : Result A → (A → Result B) → Result B
  fault >>= next = fault
  ok a >>= next = next a
