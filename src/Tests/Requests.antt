-- ===== src/Tests/Requests.antt =====
-- The sampling, the choice of servers and the reports at concrete inputs.
use molten.Common.{
  ℕ, ◌≡◌, refl, ◌⊎◌, Option, some, List, [], ◌∷◌, ◌++◌, map, Bytes, codes, arith, ℤ, pos, ◌≤ℤ◌,
  ◌+ℤ◌, min, ok,
}
use molten.Control.{Control, Decoded, array, update_sampling}
use molten.Control.Quota.{sampled_among, sampled_among-min}
use molten.Status.{Answer, success, request_handle}
use molten.Status.Page.{request_handle-settings}
use molten.Control.Update.{update_sampling-kept, update_sampling_idem}
use molten.Balance.{Server, init_servers}
use molten.Balance.Next.{sum_weight}
use molten.Balance.Shares.{picks, picks-fair}
use molten.Balance.Sums.{weight_at}
use molten.Balance.Fair.{count, times}
use molten.Report.{RepError, Report, format_llist_to_array}
use molten.Report.Lossless.{Event, error, request, run, concat, all_handed_in, run-lossless}

-- By number, 2 a minute, last at minute 9.
abbrev control : Control
control = record {
  mcm = record {
    change_time = pos 0;
    enable = 1;
    sampling_type = 2;
    sampling_rate = pos 64;
    sampling_request = pos 2;
  };
  mri = record { request_all = 0; request_capture = 0 };
  msr = record { last_min = 9; request_num = pos 0 };
}

sampled_among-min_example : (prt' : Control) × (sampled_among 10 0 5 control ≡ ok (min 5 2, prt'))
sampled_among-min_example = sampled_among-min 10 0 2 5 control (omega arith) refl (omega arith)

-- A text with no key but those given.
abbrev posted : Option Decoded
posted = some (array (λ key. some (pos 1)))

update_sampling-kept_example :
    ((update_sampling posted control.mcm).1.sampling_rate ≡ control.mcm.sampling_rate)
    ⊎ ((update_sampling posted control.mcm).1.sampling_request ≡ control.mcm.sampling_request)
update_sampling-kept_example = update_sampling-kept posted control.mcm

update_sampling_idem_example :
    update_sampling posted (update_sampling posted control.mcm).1
    ≡ update_sampling posted control.mcm
update_sampling_idem_example = update_sampling_idem posted control.mcm

request_handle-settings_example :
    let (answers, mcm') =
      request_handle
        (codes "0.1")
        (codes "/molten/status")
        (some (codes "/molten/status?x"))
        (some (codes "POST"))
        posted
        control.mcm
        control.mri in
    (mcm' ≡ control.mcm) ⊎ ((before : List Answer) × (answers ≡ before ++ (success ∷ [])))
request_handle-settings_example =
    request_handle-settings (codes "0.1") (codes "/molten/status") (some (codes "/molten/status?x"))
      (some (codes "POST")) posted control.mcm control.mri

abbrev weights : List (Bytes × ℤ)
weights = (codes "a", pos 5) ∷ (codes "b", pos 1) ∷ []

picks-fair_example :
    let w = sum_weight (init_servers weights) in
    (is : List ℕ) × (ss' : List Server) × (picks 6 (init_servers weights) ≡ ok (is, ss'))
    × ((j : ℕ)
        → (times (count j is) w +ℤ pos 1) ≤ℤ (times 6 (weight_at (init_servers weights) j) +ℤ w))
unfolding init_servers ◌+ℤ◌
picks-fair_example =
    picks-fair 6 weights (omega arith, (omega arith, tt)) (omega arith) (omega arith)

abbrev server : Server
server = record { weight = pos 5; cur_weight = pos 0; name = codes "a" }

abbrev report : Report
report = record {
  last_rep_time = pos 0;
  rep_interval = pos 60;
  report_limit = pos 100;
  error_list = [];
}

abbrev events : List Event
events = error (some (codes "/")) (codes "E") 5 ∷ request 61000000 ∷ []

run-lossless_example :
    (batches : List (List RepError)) × ((run events report).0 ≡ map format_llist_to_array batches)
    × (concat batches ++ (run events report).1.error_list
        ≡ report.error_list ++ all_handed_in events)
run-lossless_example = run-lossless events report
