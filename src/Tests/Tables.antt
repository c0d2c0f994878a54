-- ===== src/Tests/Tables.antt =====
-- The function table at a concrete input.
use molten.Common.{ℕ, ◌≡◌, refl, Bool, true, none, some, bytes_eq, codes, ok, if◌then◌else◌}
use molten.Overload.Reload.{
  Table, Origins, prd, setopt_def, exec_def, setopt_array_def, reset_def, reload_curl_function,
  clear_reload_function, retrieve_origins,
}
use molten.Overload.Restore.{Loaded, Four, originals, reload_curl_function-cleared}

-- curl's functions are 1 to 4, molten's 11 to 14.
abbrev php : Table ℕ
php name =
    if bytes_eq name (codes "curl_setopt")
    then some 1
    else if bytes_eq name (codes "curl_exec")
    then some 2
    else if bytes_eq name (codes "curl_setopt_array")
    then some 3
    else if bytes_eq name (codes "curl_reset")
    then some 4
    else if bytes_eq name (codes "molten_curl_setopt")
    then some 11
    else if bytes_eq name (codes "molten_curl_exec")
    then some 12
    else if bytes_eq name (codes "molten_curl_setopt_array")
    then some 13
    else if bytes_eq name (codes "molten_curl_reset")
    then some 14
    else none

abbrev any : ℕ → Bool
any f = true

setopt-Loaded : Loaded any php setopt_def 1 11
unfolding bytes_eq
setopt-Loaded = record {
  has_orig = refl;
  has_over = refl;
  internal_orig = refl;
  internal_over = refl;
  cut = refl;
  unsaved = refl;
}

exec-Loaded : Loaded any php exec_def 2 12
unfolding bytes_eq
exec-Loaded = record {
  has_orig = refl;
  has_over = refl;
  internal_orig = refl;
  internal_over = refl;
  cut = refl;
  unsaved = refl;
}

setopt_array-Loaded : Loaded any php setopt_array_def 3 13
unfolding bytes_eq
setopt_array-Loaded = record {
  has_orig = refl;
  has_over = refl;
  internal_orig = refl;
  internal_over = refl;
  cut = refl;
  unsaved = refl;
}

reset-Loaded : Loaded any php reset_def 4 14
unfolding bytes_eq
reset-Loaded = record {
  has_orig = refl;
  has_over = refl;
  internal_orig = refl;
  internal_over = refl;
  cut = refl;
  unsaved = refl;
}

abbrev no_origins : Origins ℕ
no_origins = record {
  curl_setopt = none;
  curl_exec = none;
  curl_setopt_array = none;
  curl_reset = none;
}

reload_curl_function-cleared_example :
    (t1 : Table ℕ) × (t2 : Table ℕ) × (reload_curl_function any prd php ≡ ok t1)
    × (reload_curl_function any prd t1 ≡ ok t2)
    × (Four t1 11 12 13 14)
    × (Four t2 11 12 13 14)
    × (Four (clear_reload_function prd t1) 1 2 3 4)
    × (Four (clear_reload_function prd t2) 1 2 3 4)
    × (retrieve_origins t1 no_origins ≡ originals 1 2 3 4)
    × (retrieve_origins t2 no_origins ≡ originals 1 2 3 4)
reload_curl_function-cleared_example =
    reload_curl_function-cleared any php 1 2 3 4 11 12 13 14 no_origins setopt-Loaded exec-Loaded
      setopt_array-Loaded reset-Loaded
