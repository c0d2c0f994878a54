-- ===== src/Record/Kept.antt =====
-- What the log keeps of what a record function adds.
use molten.Common.{◌≡◌, Bool, true, false, Option, some, List, [], ◌∷◌, ◌++◌, Bytes, Result, ok}
use molten.Zval.{Arr}
use molten.Span.Contract.{BuilderLaws, below_id}
use molten.Record.Engine.{State, Tracer}

module _ (t : Tracer) (id_of parent_of : Arr → Option Bytes)
    (laws : BuilderLaws t.psb id_of parent_of) where
  -- The function returns, and the log keeps one more span behind the others, whose id is that of the open
  -- span context, and whose parent is the id of the one below it, if there is one; or it keeps those that
  -- it had.
  abbrev pub Kept : t.mode.Context → List t.mode.Context → Bool → List Arr → Result State → Type 0
  Kept c rest true kept r =
      (s' : State) × (span : Arr) × (r ≡ ok s')
      × (s'.log.spans ≡ some (kept ++ (span ∷ [])))
      × (id_of span ≡ some (t.mode.span_id c))
      × (parent_of span ≡ below_id t.mode rest)
  Kept c rest false kept r = (s' : State) × (r ≡ ok s') × (s'.log.spans ≡ some kept)
