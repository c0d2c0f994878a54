-- ===== src/Shm/Slots.antt =====
-- What the slots of the shared memory keep.
use molten.Common.{
  ℕ, zero, suc, ◌+◌, ◌-◌, ◌≤◌, ◌<◌, ◌%◌, ◌^◌, ◌≡◌, refl, ap, ◌∙◌, inl, inr, true, false, some, List,
  [], ◌∷◌, ◌++◌, take, replicate, false, arith, Bytes, ltb, ==_refl, ok, get_elem?, set, length,
  Bool-cases, get_elem?-set_self,
}
use molten.Shm.{Slot, slot_magic, payload_size, is_created, fill, create, create_slot}

created :
    (slot : ℕ) (content : Bytes) (size : ℕ)
    → is_created slot (record {
      magic = (slot_magic + slot) % 2 ^ 32;
      init = 1;
      size = size;
      payload = fill size content;
    })
      ≡ true
unfolding is_created
created slot content size = ==_refl ((slot_magic + slot) % 2 ^ 32)

-- A slot that was created is created, and stays as it is.
create-is_created :
    (slot : ℕ) (content : Bytes) (size : ℕ) (s : Slot)
    → is_created slot (create slot content size s) ≡ true
unfolding create
create-is_created slot content size s = elim (Bool-cases (is_created slot s)) [
  | inl e ↦ rw e e
  | inr e ↦ rw e (created slot content size)
]

create_again :
    (slot : ℕ) (content : Bytes) (size : ℕ) (s : Slot)
    → is_created slot s ≡ true
    → create slot content size s ≡ s
unfolding create
create_again slot content size s e = rw e refl

create_slot-ok :
    (slot : ℕ) (content : Bytes) (size : ℕ) (mss : List Slot) (s : Slot)
    → size ≤ payload_size
    → get_elem? mss slot ≡ some s
    → let s' = create slot content size s in
      create_slot slot content size mss ≡ ok (some s'.payload, set mss slot s')
unfolding create_slot
create_slot-ok slot content size mss s small e =
    let fits : ltb payload_size size ≡ false = ground arith in rw (fits, e) refl

set_same {ℓ} :
    {A : Type ℓ} (xs : List A) (i : ℕ) (x : A) → get_elem? xs i ≡ some x → set xs i x ≡ xs
set_same [] i x e = refl
set_same (y ∷ xs) zero x e = ground arith
set_same (y ∷ xs) (suc i) x e = ap (λ t. y ∷ t) (set_same xs i x e)

get_elem?-length {ℓ} :
    {A : Type ℓ} (xs : List A) (i : ℕ) (x : A) → get_elem? xs i ≡ some x → i < length xs
get_elem?-length [] i x e = ground arith
get_elem?-length (y ∷ xs) zero x e = omega arith
get_elem?-length (y ∷ xs) (suc i) x e = omega (arith, get_elem?-length xs i x e)

fresh-payload :
    (slot : ℕ) (content : Bytes) (size : ℕ) (s : Slot)
    → is_created slot s ≡ false
    → (create slot content size s).payload ≡ take size content ++ replicate (payload_size - size) 0
unfolding create
fresh-payload slot content size s e = rw e refl

-- The first process that creates a slot fills it with its data and zeros behind them: whatever another
-- process then hands in for this slot, it gets the same payload, and nothing changes. The conditions: the
-- slot is there and not yet created, and no data has more than 1024 bytes.
pub create_slot-first :
    (slot : ℕ) (content content' : Bytes) (size size' : ℕ) (mss : List Slot) (s : Slot)
    → size ≤ payload_size
    → size' ≤ payload_size
    → get_elem? mss slot ≡ some s
    → is_created slot s ≡ false
    → let payload = take size content ++ replicate (payload_size - size) 0 in
      (mss' : List Slot) × (create_slot slot content size mss ≡ ok (some payload, mss'))
      × (create_slot slot content' size' mss' ≡ ok (some payload, mss'))
create_slot-first slot content content' size size' mss s small small' e new =
    let s' = create slot content size s in
    let mss' = set mss slot s' in
    let inside = get_elem?-length mss slot s e in
    let e' : get_elem? mss' slot ≡ some s' = get_elem?-set_self mss slot s' inside in
    let same = create_again slot content' size' s' (create-is_created slot content size s) in
    let filled = ap (λ p. ok (some p, mss')) (fresh-payload slot content size s new) in
    (
      mss',
      create_slot-ok slot content size mss s small e ∙ filled,
      create_slot-ok slot content' size' mss' s' small' e'
          ∙ ap (λ t. ok (some t.payload, set mss' slot t)) same
          ∙ ap (λ t. ok (some s'.payload, t)) (set_same mss' slot s' e')
          ∙ filled,
    )
