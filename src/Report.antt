-- ===== src/Report.antt =====
-- molten_report.c: the errors of requests are gathered in a list, which is written out after a time or
-- when it is long enough.
pub mod Lossless
pub mod Callback
use molten.Common.{
  ℕ, ◌/◌, Bool, true, false, not, Option, none, some, List, [], ◌∷◌, ◌++◌, Bytes, codes,
  if◌then◌else◌, ◌==◌, ℤ, pos, ltb_ℤ, ◌-ℤ◌, length,
}
use molten.Zval.{Zval, string, double, array, Arr, empty, add_assoc, add_next_index}

-- `mo_rep_error_t`
pub record RepError : Type 0 where
  pub uri : Bytes
  pub error : Bytes
  pub timestamp : ℕ

-- `mo_report_t`
pub record Report : Type 0 where
  pub last_rep_time : ℤ
  pub rep_interval : ℤ
  pub report_limit : ℤ
  pub error_list : List RepError

-- `mo_rep_ctor`, at second `now`.
unfoldable pub ctor : ℤ → ℤ → ℤ → Report
ctor now rep_interval report_limit = record {
  last_rep_time = now;
  rep_interval = rep_interval;
  report_limit = report_limit;
  error_list = [];
}

-- `check_interval`
unfoldable pub check_interval : Report → ℕ → ℕ × Report
check_interval pre usec =
    let sec = pos (usec / 1000000) in
    if ltb_ℤ pre.rep_interval (sec -ℤ pre.last_rep_time)
    then (2, record pre { last_rep_time = sec })
    else if not (ltb_ℤ (pos (length pre.error_list)) pre.report_limit)
    then (1, record pre { last_rep_time = sec })
    else (0, pre)

-- `mo_rep_record_error`, where `none` is NULL.
unfoldable pub record_error : Option Bytes → Bytes → ℕ → Report → Report
record_error none error_str usec pre = pre
record_error (some uri) error_str usec pre = record pre {
  error_list = pre.error_list ++ (record { uri = uri; error = error_str; timestamp = usec } ∷ []);
}

-- `llist_apply_func`
unfoldable pub add_error : RepError → Arr → Arr
add_error e arr =
    add_next_index
      (array (
        add_assoc (codes "timestamp") (double e.timestamp) (
          add_assoc (codes "error") (string e.error)
            (add_assoc (codes "uri") (string e.uri) empty))))
      arr

unfoldable pub add_errors : List RepError → Arr → Arr
add_errors [] arr = arr
add_errors (e ∷ more) arr = add_errors more (add_error e arr)

-- `format_llist_to_array`: the array that is then encoded as JSON.
unfoldable pub format_llist_to_array : List RepError → Arr
format_llist_to_array errors = add_assoc (codes "error") (array (add_errors errors empty)) empty

-- `mo_rep_record_data`: the array whose JSON goes to the log, if any. The test on the number of the
-- errors compares a function's address, and so holds always.
unfoldable pub record_data : ℕ → Report → Option Arr × Report
record_data usec pre =
    let (due, pre') = check_interval pre usec in
    if due == 0
    then (none, pre')
    else (some (format_llist_to_array pre'.error_list), record pre' { error_list = [] })
