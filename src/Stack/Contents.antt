-- ===== src/Stack/Contents.antt =====
-- A stack seen as the list of its elements, topmost first, and what each operation does to it.
use molten.Common.{
  ℕ, ◌+◌, ◌-◌, ◌≤◌, ◌<◌, ◌≡◌, refl, ap, inl, inr, Option, none, some, List, [], ◌∷◌, ◌++◌, arith,
  tests, ltb, lt→ltb, sym, ◌∙◌, Bool-cases, length, get_elem?, set, replicate, length-append,
  length-set, get_elem?-set_self, get_elem?-set_ne, get_elem?-append, ok,
}
use molten.Stack.{
  Stack, block_size, init, grow, cell_value, read_cell, store, push, element, top_element,
  sec_element, set_top, del_top, pop,
}

module _ {A : Type 0} where
  -- The cells of `es` hold `xs` from the top down: the last of `xs` lies at index 0.
  abbrev pub Below : List (Option A) → List A → Type 0
  Below es [] = Unit
  Below es (x ∷ xs) = (get_elem? es (length xs) ≡ some (some x)) × Below es xs

  pub record Holds (s : Stack A) (xs : List A) : Type 0 where
    pub depth : s.top ≡ length xs
    pub room : s.max ≡ length s.elements
    pub cells : Below s.elements xs
    pub fits : length xs ≤ length s.elements

  -- A write at or above the top spares the elements.
  Below-set :
      (es : List (Option A)) (xs : List A) (i : ℕ) (v : Option A)
      → length xs ≤ i
      → Below es xs
      → Below (set es i v) xs
  Below-set es [] i v h b = tt
  Below-set es (x ∷ xs) i v h (e, b) =
      (get_elem?-set_ne es i (length xs) v (omega arith) ∙ e, Below-set es xs i v (omega arith) b)

  Below-append : (es fs : List (Option A)) (xs : List A) → Below es xs → Below (es ++ fs) xs
  Below-append es fs [] b = tt
  Below-append es fs (x ∷ xs) (e, b) = (get_elem?-append es fs _ e, Below-append es fs xs b)

  pub init-Holds : Holds init []
  unfolding init
  init-Holds = record { depth = refl; room = refl; cells = tt; fits = omega arith }

  -- Growing keeps the elements and leaves room for one more.
  grow-Holds :
      (s : Stack A) (xs : List A)
      → Holds s xs
      → Holds (grow s) xs × (length xs < length (grow s).elements)
  unfolding grow
  grow-Holds s xs h = elim (Bool-cases (ltb s.top s.max)) [
    | inl e ↦ rw e (h, omega (tests, h.depth, h.room))
    | inr e ↦ rw e (
      record {
        depth = h.depth;
        room = omega (arith, wider, h.room);
        cells = Below-append s.elements (replicate block_size none) xs h.cells;
        fits = omega (arith, wider, h.fits);
      },
      omega (arith, wider, h.fits),
    )
  ]
    where
      wider : length (s.elements ++ replicate block_size none) ≡ length s.elements + block_size
      wider = length-append s.elements (replicate block_size none)

  -- `memcpy` and count: there is room, so the element lands on top.
  store-Holds :
      (s : Stack A) (x : A) (xs : List A)
      → Holds s xs
      → length xs < length s.elements
      → (s' : Stack A) × (store s x ≡ ok (length xs, s')) × Holds s' (x ∷ xs)
  unfolding store
  store-Holds s x xs h room = (
    record s { top = s.top + 1; elements = set s.elements s.top (some x) },
    rw (lt→ltb s.top (length s.elements) (omega (arith, h.depth))) (
        ap
          (λ (n : ℕ).
            ok (n, record s { top = s.top + 1; elements = set s.elements s.top (some x) }))
          h.depth),
    record {
      depth = omega (arith, h.depth);
      room = h.room ∙ sym (length-set s.elements s.top (some x));
      cells = (
        rw h.depth (get_elem?-set_self s.elements (length xs) (some x) room),
        Below-set s.elements xs s.top (some x) (omega (arith, h.depth)) h.cells,
      );
      fits = omega (arith, length-set s.elements s.top (some x), room);
    },
  )

  -- `mo_stack_push` returns the old depth and puts the element on top, with no fault.
  pub push-Holds :
      (s : Stack A) (x : A) (xs : List A)
      → Holds s xs
      → (s' : Stack A) × (push s x ≡ ok (length xs, s')) × Holds s' (x ∷ xs)
  unfolding push
  push-Holds s x xs h = let (g, room) = grow-Holds s xs h in store-Holds (grow s) x xs g room

  module _ {s : Stack A} {x : A} {xs : List A} (h : Holds s (x ∷ xs)) where
    at_top : s.top - 1 ≡ length xs
    at_top = omega (arith, h.depth)

    read-top : read_cell s.elements (s.top - 1) ≡ ok x
    unfolding read_cell
    read-top = rw at_top (ap cell_value h.cells.0)

    pub top_element-Holds : top_element s ≡ ok (some x)
    unfolding top_element
    top_element-Holds = rw (lt→ltb 0 s.top (omega (arith, h.depth)), read-top)

    -- `mo_stack_del_top` destroys the topmost element and leaves the rest.
    pub del_top-Holds : (s' : Stack A) × (del_top s ≡ ok (x, s')) × Holds s' xs
    unfolding del_top
    del_top-Holds = (
      record s { top = s.top - 1 },
      ground (arith, h.depth, read-top),
      record { depth = at_top; room = h.room; cells = h.cells.1; fits = omega (arith, h.fits) },
    )

    pub pop-Holds : (s' : Stack A) × (pop s ≡ ok (some x, s')) × Holds s' xs
    unfolding pop
    pop-Holds = let (s', e, k) = del_top-Holds in (s', ground (arith, h.depth, e), k)

    -- A write through the pointer to the topmost element replaces that element.
    pub set_top-Holds : (y : A) → Holds (set_top s y) (y ∷ xs)
    unfolding set_top
    set_top-Holds y = record {
      depth = h.depth;
      room = h.room ∙ sym (length-set s.elements (s.top - 1) (some y));
      cells = (
        rw at_top (get_elem?-set_self s.elements (length xs) (some y) (omega (arith, h.fits))),
        Below-set s.elements xs (s.top - 1) (some y) (omega (arith, at_top)) h.cells.1,
      );
      fits = omega (arith, length-set s.elements (s.top - 1) (some y), h.fits);
    }

  pub sec_element-Holds :
      {s : Stack A} {x y : A} {xs : List A} → Holds s (x ∷ y ∷ xs) → sec_element s ≡ ok (some y)
  unfolding sec_element element read_cell
  sec_element-Holds {s} {xs} h =
      let below : s.top - 1 - 1 ≡ length xs = omega (arith, h.depth) in
      rw (lt→ltb 1 s.top (omega (arith, h.depth)), below) (ground (arith, h.depth, h.cells.1.0))

  -- An empty stack: nothing is on top, nothing below it, and popping changes nothing.
  pub empty-Holds :
      {s : Stack A}
      → Holds s []
      → (top_element s ≡ ok none) × (sec_element s ≡ ok none) × (pop s ≡ ok (none, s))
  unfolding top_element sec_element pop
  empty-Holds h = ground (arith, h.depth)

  pub sec_element-one : {s : Stack A} {x : A} → Holds s (x ∷ []) → sec_element s ≡ ok none
  unfolding sec_element
  sec_element-one h = ground (arith, h.depth)
