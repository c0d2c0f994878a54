-- ===== src/Report/Lossless.antt =====
-- The errors of molten_report.c over many requests, and the reports that they get into.
use molten.Common.{
  ℕ, ◌≡◌, refl, ap, sym, ◌∙◌, ◌⊎◌, inl, inr, Option, none, some, List, [], ◌∷◌, ◌++◌, map, Bytes,
  Bool-cases, ◌==◌, ltb_ℤ, pos, ◌/◌, ◌-ℤ◌, length,
}
use mathlib.Core.List.{append_assoc, append-nil}
use molten.Zval.{Arr}
use molten.Report.{
  RepError, Report, check_interval, record_error, format_llist_to_array, record_data,
}

-- What happens to a report: an error of a request, or the end of a request, at a time.
pub data Event : Type 0 where
  error : Option Bytes → Bytes → ℕ → Event
  request : ℕ → Event

-- The errors that events hand in.
abbrev pub handed_in : Event → List RepError
handed_in (error none text usec) = []
handed_in (error (some uri) text usec) = record { uri = uri; error = text; timestamp = usec } ∷ []
handed_in (request usec) = []

unfoldable pub all_handed_in : List Event → List RepError
all_handed_in [] = []
all_handed_in (e ∷ more) = handed_in e ++ all_handed_in more

-- A run of events: the arrays that are written, and the report that is left.
abbrev pub step : Event → Report → Option Arr × Report
step (error uri text usec) pre = (none, record_error uri text usec pre)
step (request usec) pre = record_data usec pre

abbrev pub cons_some {ℓ} : {A : Type ℓ} → Option A → List A → List A
cons_some none xs = xs
cons_some (some x) xs = x ∷ xs

unfoldable pub run : List Event → Report → List Arr × Report
run [] pre = ([], pre)
run (e ∷ more) pre =
    let (out, pre') = step e pre in let (outs, last) = run more pre' in (cons_some out outs, last)

unfoldable pub concat : List (List RepError) → List RepError
concat [] = []
concat (b ∷ bs) = b ++ concat bs

check_interval-errors :
    (pre : Report) (usec : ℕ) → (check_interval pre usec).1.error_list ≡ pre.error_list
unfolding check_interval
check_interval-errors pre usec =
    elim (Bool-cases (ltb_ℤ pre.rep_interval (pos (usec / 1000000) -ℤ pre.last_rep_time))) [
      | inl z ↦ rw z refl
      | inr z ↦ elim (Bool-cases (ltb_ℤ (pos (length pre.error_list)) pre.report_limit)) [
        | inl y ↦ rw (z, y) refl
        | inr y ↦ rw (z, y) refl
      ]
    ]

-- What a step does with the list: it writes it and empties it, or it writes nothing and keeps it.
step-list :
    (e : Event) (pre : Report)
    → (((step e pre).0 ≡ none) × ((step e pre).1.error_list ≡ pre.error_list ++ handed_in e))
      ⊎ (((step e pre).0 ≡ some (format_llist_to_array (pre.error_list ++ handed_in e)))
          × ((step e pre).1.error_list ≡ []))
unfolding record_error record_data
step-list (error none text usec) pre = inl (refl, sym (append-nil pre.error_list))
step-list (error (some uri) text usec) pre = inl (refl, refl)
step-list (request usec) pre =
    let same = check_interval-errors pre usec in
    elim (Bool-cases ((check_interval pre usec).0 == 0)) [
      | inl z ↦ inl (rw z refl, rw z same ∙ sym (append-nil pre.error_list))
      | inr z ↦ inr (
        rw z (ap (λ l. some (format_llist_to_array l)) same)
            ∙ ap (λ l. some (format_llist_to_array l)) (sym (append-nil pre.error_list)),
        rw z refl,
      )
    ]

-- However errors are recorded and requests end, the reports that are written are those of batches which,
-- put one behind the other and followed by the list that is left, are the errors of the list at the start
-- and those that were recorded since, each once and in order.
pub run-lossless :
    (events : List Event) (pre : Report)
    → (batches : List (List RepError)) × ((run events pre).0 ≡ map format_llist_to_array batches)
      × (concat batches ++ (run events pre).1.error_list ≡ pre.error_list ++ all_handed_in events)
unfolding run concat all_handed_in
run-lossless [] pre = ([], refl, sym (append-nil pre.error_list))
run-lossless (e ∷ more) pre =
    let (bs, out, list) = run-lossless more (step e pre).1 in
    elim (step-list e pre) [
      | inl (w, l) ↦ (
        bs,
        ap (λ o. cons_some o (run more (step e pre).1).0) w ∙ out,
        list
            ∙ ap (λ t. t ++ all_handed_in more) l
            ∙ append_assoc pre.error_list (handed_in e) (all_handed_in more),
      )
      | inr (w, l) ↦ (
        (pre.error_list ++ handed_in e) ∷ bs,
        ap (λ o. cons_some o (run more (step e pre).1).0) w
            ∙ ap (λ t. format_llist_to_array (pre.error_list ++ handed_in e) ∷ t) out,
        append_assoc (pre.error_list ++ handed_in e) (concat bs)
              (run more (step e pre).1).1.error_list
            ∙ ap (λ t. (pre.error_list ++ handed_in e) ++ t)
                (list ∙ ap (λ t. t ++ all_handed_in more) l)
            ∙ append_assoc pre.error_list (handed_in e) (all_handed_in more),
      )
    ]
