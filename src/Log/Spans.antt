-- ===== src/Log/Spans.antt =====
-- How many spans a request keeps.
use molten.Common.{
  ◌≤◌, ◌<◌, ◌≡◌, true, some, refl, ap, ◌∙◌, sym, List, [], ◌∷◌, ◌++◌, arith, ltb, inl, inr,
  Bool-cases, tests, ltb→lt, length, take, take-all, take-append, length-append,
}
use mathlib.Core.List.{append_assoc, append-nil}
use molten.Log.{ChainLog, max_spans, keep_span, add_span}

module _ {S : Type 0} where
  -- With room for one, a span is kept behind the others.
  pub add_span-kept :
      (log : ChainLog S) (x : S) (kept : List S)
      → log.spans ≡ some kept
      → length kept < max_spans
      → (add_span log x).spans ≡ some (kept ++ (x ∷ []))
  unfolding add_span keep_span
  add_span-kept log x kept e room =
      let yes : ltb (length kept) max_spans ≡ true = ground arith in rw (e, yes) refl

  -- The spans of `more`, added one after another.
  unfoldable pub keep_all : List S → List S → List S
  keep_all spans [] = spans
  keep_all spans (x ∷ more) = keep_all (keep_span spans x) more

  -- One after another, the spans are kept in the order of their arrival until there are 300, and
  -- those that come later are dropped.
  pub keep_all-take :
      (more spans : List S)
      → length spans ≤ max_spans
      → keep_all spans more ≡ take max_spans (spans ++ more)
  unfolding keep_all keep_span
  keep_all-take [] spans h = rw append-nil (sym (take-all max_spans spans h))
  keep_all-take (x ∷ more) spans h = elim (Bool-cases (ltb (length spans) max_spans)) [
    | inl e ↦ rw e (
        keep_all-take more (spans ++ (x ∷ []))
          (omega (tests, ltb→lt _ _ e, length-append spans (x ∷ [])))
        ∙ ap (take max_spans) (append_assoc spans (x ∷ []) more))
    | inr e ↦
        let full : length spans ≡ max_spans = ground arith in
        rw e (
          keep_all-take more spans h
          ∙ take-append max_spans spans more full
          ∙ sym (take-append max_spans spans (x ∷ more) full))
  ]

  pub keep_all-append :
      (spans xs ys : List S) → keep_all spans (xs ++ ys) ≡ keep_all (keep_all spans xs) ys
  unfolding keep_all
  keep_all-append spans [] ys = refl
  keep_all-append spans (x ∷ xs) ys = keep_all-append (keep_span spans x) xs ys
