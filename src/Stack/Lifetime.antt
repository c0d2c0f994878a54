-- ===== src/Stack/Lifetime.antt =====
-- The calls of the destructor: what `mo_stack_destroy` destroys, and what a whole run of pushes
-- and pops destroys.
use mathlib.Core.List.{Perm, reverse, reverse_aux, reverse_perm, perm_middle}
use mathlib.Core.List.Perm
use molten.Common.{
  ℕ, suc, ◌+◌, ◌≡◌, refl, Option, none, some, List, [], ◌∷◌, ◌++◌, arith, length, get_elem?, Result,
  ok, ◌>>=◌,
}
use molten.Stack.{Stack, init, read_cell, push, pop, destroy_from, destroy}
use molten.Stack.Contents.{Below, Holds, init-Holds, push-Holds, pop-Holds, empty-Holds}

-- What a client does with a stack.
pub data Op (A : Type 0) : Type 0 where
  push_op : A → Op A
  pop_op : Op A

module _ {A : Type 0} where
  -- The elements that are pushed, the latest first.
  unfoldable pub pushed : List (Op A) → List A → List A
  pushed [] xs = xs
  pushed (push_op x ∷ ops) xs = pushed ops (x ∷ xs)
  pushed (pop_op ∷ ops) xs = pushed ops xs

  -- A popped element is put in front of those destroyed before.
  abbrev pub with_popped : Option A → List A → List A
  with_popped none gone = gone
  with_popped (some a) gone = a ∷ gone

  -- A run of operations: the elements destroyed, the latest first, and the stack that is left.
  unfoldable pub run : List (Op A) → Stack A → List A → Result (List A × Stack A)
  run [] s gone = ok (gone, s)
  run (push_op x ∷ ops) s gone = do (_, s') ← push s x; run ops s' gone
  run (pop_op ∷ ops) s gone = do (r, s') ← pop s; run ops s' (with_popped r gone)

  -- The cells of `es` from index `i` up hold `bs`.
  abbrev From : List (Option A) → ℕ → List A → Type 0
  From es i [] = Unit
  From es i (b ∷ bs) = (get_elem? es i ≡ some (some b)) × From es (suc i) bs

  From-reverse_aux :
      (es : List (Option A)) (xs bs : List A)
      → Below es xs
      → From es (length xs) bs
      → From es 0 (reverse_aux xs bs)
  From-reverse_aux es [] bs b f = f
  From-reverse_aux es (x ∷ xs) bs (e, b) f = From-reverse_aux es xs (x ∷ bs) b (e, f)

  length-reverse_aux : (xs bs : List A) → length (reverse_aux xs bs) ≡ length xs + length bs
  length-reverse_aux [] bs = omega arith
  length-reverse_aux (x ∷ xs) bs = omega (arith, length-reverse_aux xs (x ∷ bs))

  destroy_from-From :
      (es : List (Option A)) (i : ℕ) (bs : List A)
      → From es i bs
      → destroy_from es i (length bs) ≡ ok bs
  unfolding destroy_from read_cell
  destroy_from-From es i [] f = refl
  destroy_from-From es i (b ∷ bs) (e, f) = rw (e, destroy_from-From es (suc i) bs f)

  destroy_from-all :
      (s : Stack A) (xs : List A) → Holds s xs → destroy_from s.elements 0 s.top ≡ ok (reverse xs)
  destroy_from-all s xs h =
      let f = From-reverse_aux s.elements xs [] h.cells tt in
      let n : s.top ≡ length (reverse xs) = omega (arith, h.depth, length-reverse_aux xs []) in
      rw n (destroy_from-From s.elements 0 (reverse xs) f)

  destroy-cells :
      (es : List (Option A)) (t m : ℕ) (xs : List A)
      → Holds (record { top = t; max = m; elements = es }) xs
      → (s' : Stack A) × (destroy (record { top = t; max = m; elements = es })
          ≡ ok (reverse xs, s'))
        × Holds s' []
  unfolding destroy
  destroy-cells [] t m [] h = (record { top = t; max = m; elements = [] }, refl, h)
  destroy-cells [] t m (x ∷ xs) h = absurd (omega (arith, h.fits))
  destroy-cells (e ∷ es) t m xs h = (
    init,
    rw (destroy_from-all (record { top = t; max = m; elements = e ∷ es }) xs h),
    init-Holds,
  )

  -- `mo_stack_destroy` calls the destructor once on each element, from the bottom up, and leaves
  -- an empty stack.
  pub destroy-Holds :
      (s : Stack A) (xs : List A)
      → Holds s xs
      → (s' : Stack A) × (destroy s ≡ ok (reverse xs, s')) × Holds s' []
  destroy-Holds s xs h = destroy-cells s.elements s.top s.max xs h

  -- The elements destroyed and those left are the elements pushed.
  run-perm :
      (ops : List (Op A)) (s : Stack A) (xs gone all : List A)
      → Holds s xs
      → Perm (xs ++ gone) all
      → (gone' : List A) × (s' : Stack A) × (ys : List A) × (run ops s gone ≡ ok (gone', s'))
        × Holds s' ys
        × Perm (ys ++ gone') (pushed ops all)
  unfolding run pushed
  run-perm [] s xs gone all h p = (gone, s, xs, refl, h, p)
  run-perm (push_op x ∷ ops) s xs gone all h p =
      let (s1, e, h1) = push-Holds s x xs h in
      let (gone', s', ys, r, k, q) = run-perm ops s1 (x ∷ xs) gone (x ∷ all) h1 (Perm.cons x p) in
      (gone', s', ys, rw e r, k, q)
  run-perm (pop_op ∷ ops) s [] gone all h p =
      let (gone', s', ys, r, k, q) = run-perm ops s [] gone all h p in
      (gone', s', ys, rw (empty-Holds h).2 r, k, q)
  run-perm (pop_op ∷ ops) s (x ∷ xs) gone all h p =
      let (s1, e, h1) = pop-Holds h in
      let (gone', s', ys, r, k, q) =
        run-perm ops s1 xs (x ∷ gone) all h1 (Perm.trans (perm_middle xs gone) p) in
      (gone', s', ys, rw e r, k, q)

  -- A stack from its start to `mo_stack_destroy`.
  unfoldable pub lifetime : List (Op A) → Result (List A × Stack A)
  lifetime ops = do (gone, s) ← run ops init []; (rest, s') ← destroy s; ok (rest ++ gone, s')

  -- Whatever is pushed and popped, no operation faults, and the destructor is called exactly once
  -- on each element that was pushed: nothing leaks and nothing is destroyed twice.
  pub lifetime-perm :
      (ops : List (Op A))
      → (gone : List A) × (s : Stack A) × (lifetime ops ≡ ok (gone, s))
        × Holds s []
        × Perm gone (pushed ops [])
  unfolding lifetime
  lifetime-perm ops =
      let (gone, s, ys, r, h, p) = run-perm ops init [] [] [] init-Holds (Perm.refl []) in
      let (s', d, k) = destroy-Holds s ys h in
      (
        reverse ys ++ gone,
        s',
        rw (r, d),
        k,
        Perm.trans (Perm.append (reverse_perm ys) (Perm.refl gone)) p,
      )
