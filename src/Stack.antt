-- ===== src/Stack.antt =====
-- common/molten_stack.c: a growing array of elements of one size. An operation that changes the
-- stack returns the new one. A call of the destructor is reported in the result: the elements on
-- which it was called, in order.
pub mod Contents
pub mod Lifetime
use molten.Common.{
  ℕ, zero, suc, ◌+◌, ◌-◌, ◌*◌, ◌≡◌, Bool, true, false, Option, none, some, List, [], ◌∷◌, ◌++◌, ltb,
  ◌==◌, if◌then◌else◌, length, get_elem?, set, replicate, Result, ok, fault, ◌>>=◌,
}

-- `MO_STACK_BLOCK_SIZE`
abbrev pub block_size : ℕ
block_size = 64

-- `mo_stack`. A cell that nothing was written to is `none`. `elements` is [] for NULL. The size of
-- an element and the destructor are fixed by the type of the elements.
pub record Stack (A : Type 0) : Type 0 where
  pub top : ℕ
  pub max : ℕ
  pub elements : List (Option A)

module _ {A : Type 0} where
  -- `mo_stack_init`
  unfoldable pub init : Stack A
  init = record { top = 0; max = 0; elements = [] }

  -- The `erealloc` of `mo_stack_push`: another block when the array is full.
  unfoldable pub grow : Stack A → Stack A
  grow s =
      if ltb s.top s.max
      then s
      else record s { max = s.max + block_size; elements = s.elements ++ replicate block_size none }

  -- What reading a cell gives: nothing is there, or it was never written, or it holds an element.
  abbrev pub cell_value : Option (Option A) → Result A
  cell_value none = fault
  cell_value (some none) = fault
  cell_value (some (some a)) = ok a

  -- `*STACK_ELE(stack, m)`: reading outside the array, or a cell never written, is a fault.
  unfoldable pub read_cell : List (Option A) → ℕ → Result A
  read_cell es m = cell_value (get_elem? es m)

  -- The `memcpy` and the count of `mo_stack_push`: the index of the new element, and the stack.
  -- Writing outside the array is a fault.
  unfoldable pub store : Stack A → A → Result (ℕ × Stack A)
  store s a =
      if ltb s.top (length s.elements)
      then ok (s.top, record s { top = s.top + 1; elements = set s.elements s.top (some a) })
      else fault

  -- `mo_stack_push`
  unfoldable pub push : Stack A → A → Result (ℕ × Stack A)
  push s a = store (grow s) a

  -- `mo_stack_element`: the element that lies `offset` below the topmost one.
  unfoldable pub element : Stack A → ℕ → Result A
  element s offset =
      if ltb s.top (suc offset) then fault else read_cell s.elements (s.top - 1 - offset)

  -- `mo_stack_top`; `none` is NULL.
  unfoldable pub top_element : Stack A → Result (Option A)
  top_element s =
      if ltb 0 s.top then (do a ← read_cell s.elements (s.top - 1); ok (some a)) else ok none

  -- `mo_stack_sec_element`
  unfoldable pub sec_element : Stack A → Result (Option A)
  sec_element s = if ltb 1 s.top then (do a ← element s 1; ok (some a)) else ok none

  -- A write through the pointer that `mo_stack_top` returns.
  unfoldable pub set_top : Stack A → A → Stack A
  set_top s a = record s { elements = set s.elements (s.top - 1) (some a) }

  -- `mo_stack_del_top`: destroys the topmost element and forgets it.
  unfoldable pub del_top : Stack A → Result (A × Stack A)
  del_top s =
      if s.top == 0
      then fault
      else do a ← read_cell s.elements (s.top - 1); ok (a, record s { top = s.top - 1 })

  -- `mo_stack_pop`: the element that was copied out and destroyed, `none` on an empty stack.
  unfoldable pub pop : Stack A → Result (Option A × Stack A)
  pop s = if s.top == 0 then ok (none, s) else (do (a, s') ← del_top s; ok (some a, s'))

  -- `mo_stack_empty` and `mo_stack_num`
  unfoldable pub empty : Stack A → Bool
  empty s = s.top == 0

  unfoldable pub num : Stack A → ℕ
  num s = s.top

  -- The loop of `mo_stack_destroy`: from index `i` on, `n` elements are destroyed.
  unfoldable pub destroy_from : List (Option A) → ℕ → ℕ → Result (List A)
  destroy_from es i zero = ok []
  destroy_from es i (suc n) =
      let rest = destroy_from es (suc i) n in do a ← read_cell es i; more ← rest; ok (a ∷ more)

  -- `mo_stack_destroy`: with no array there is nothing to do.
  unfoldable pub destroy : Stack A → Result (List A × Stack A)
  destroy s = elim s.elements [
    | [] ↦ ok ([], s)
    | _ ∷ _ ↦ do gone ← destroy_from s.elements 0 s.top; ok (gone, init)
  ]
