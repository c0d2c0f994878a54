-- ===== src/Control.antt =====
-- molten_ctrl.c: whether a request is sampled, what is counted of the requests, and how the sampling
-- is changed over HTTP.
pub mod Quota
pub mod Update
use molten.Common.{
  ℕ, zero, suc, ◌+◌, ◌%◌, ◌^◌, Bool, true, false, not, ◌&&◌, Option, none, some, List, [], ◌∷◌,
  ◌++◌, Bytes, codes, has_prefix, ◌==◌, if◌then◌else◌, ℤ, pos, negsuc, ◌+ℤ◌, ltb_ℤ, magnitude,
  to_uint8, to_int64, decimal, decimal_ℤ, Result, ok, fault, ◌>>=◌,
}

-- `SAMPLING_RATE`
abbrev pub sampling_by_rate : ℕ
sampling_by_rate = 1

-- `mo_ctrm_t`
pub record Settings : Type 0 where
  pub change_time : ℤ
  pub enable : ℕ
  pub sampling_type : ℕ
  pub sampling_rate : ℤ
  pub sampling_request : ℤ

-- `mo_repi_t`
pub record Counts : Type 0 where
  pub request_all : ℕ
  pub request_capture : ℕ

-- `mo_sr_t`: the minute of the last request that was sampled by number, and the count in it.
pub record Minute : Type 0 where
  pub last_min : ℕ
  pub request_num : ℤ

-- `mo_ctrl_t`
pub record Control : Type 0 where
  pub mcm : Settings
  pub mri : Counts
  pub msr : Minute

-- The values with which `mo_ctrl_ctor` starts its three records, at minute `min`.
unfoldable pub ctor : ℕ → ℤ → ℤ → ℤ → Control
ctor min sampling_type rate request = record {
  mcm = record {
    change_time = pos 0;
    enable = 1;
    sampling_type = to_uint8 sampling_type;
    sampling_rate = rate;
    sampling_request = request;
  };
  mri = record { request_all = 0; request_capture = 0 };
  msr = record { last_min = min; request_num = pos 0 };
}

-- `check_hit_ratio` of molten_util.c, with `num` the value of `random()`. A base of 0 divides by zero.
unfoldable pub check_hit_ratio : ℤ → ℕ → Result Bool
check_hit_ratio base num = if magnitude base == 0 then fault else ok (num % magnitude base == 0)

-- What `find_server_var` gives for the header that says whether the caller is sampled.
pub data ServerVar : Type 0 where
  missing : ServerVar
  string : Bytes → ServerVar
  other : ServerVar

-- The counting of requests in a minute.
unfoldable pub count_request : ℕ → Minute → Minute
count_request min msr =
    if min == msr.last_min
    then record msr { request_num = msr.request_num +ℤ pos 1 }
    else record { last_min = min; request_num = pos 0 }

-- The sampling that the settings ask for.
unfoldable pub sample_by_settings : Control → ℕ → ℕ → Result (Bool × Control)
sample_by_settings prt min num =
    if prt.mcm.sampling_type == sampling_by_rate
    then (do hits ← check_hit_ratio prt.mcm.sampling_rate num; ok (hits, prt))
    else (let msr = count_request min prt.msr in
        ok (ltb_ℤ msr.request_num prt.mcm.sampling_request, record prt { msr = msr }))

-- `mo_ctrl_sampling`, at minute `min`, where `num` is drawn: whether the request is sampled. Outside
-- the command line a header decides, if there is one.
unfoldable pub sampling : Control → Bool → ServerVar → ℕ → ℕ → Result (Bool × Control)
sampling prt true header min num = sample_by_settings prt min num
sampling prt false missing min num = sample_by_settings prt min num
sampling prt false other min num = sample_by_settings prt min num
sampling prt false (string s) min num = ok (has_prefix (codes "1") s, prt)

-- `mo_ctrl_record`
unfoldable pub record_request : Counts → Bool → Counts
record_request mri is_sampled = record mri {
  request_all = (mri.request_all + 1) % 2 ^ 64;
  request_capture = if is_sampled then (mri.request_capture + 1) % 2 ^ 64 else mri.request_capture;
}

-- What `php_json_decode_ex` makes of the text that is posted: nothing that is an array, or the values
-- under its keys, as `convert_to_long` turns them.
pub data Decoded : Type 0 where
  no_array : Decoded
  array : (Bytes → Option ℤ) → Decoded

abbrev pub or_keep {ℓ} : {A : Type ℓ} → Option A → A → A
or_keep none old = old
or_keep (some new) old = new

abbrev pub is_zero : ℤ → Bool
is_zero n = magnitude n == 0

-- The steps of `mo_ctrl_update_sampling`, each with what the text has under the key that it reads.
abbrev pub set_type : Option ℤ → Settings → Settings
set_type none mcm = mcm
set_type (some t) mcm = record mcm { sampling_type = to_uint8 t }

abbrev pub set_amount : Bool → (Bytes → Option ℤ) → Settings → Settings
set_amount true field mcm = record mcm {
  sampling_rate = or_keep (field (codes "samplingRate")) mcm.sampling_rate;
}
set_amount false field mcm = record mcm {
  sampling_request = or_keep (field (codes "samplingRequest")) mcm.sampling_request;
}

unfoldable pub set_sampling : (Bytes → Option ℤ) → Settings → Settings
set_sampling field mcm =
    let typed = set_type (field (codes "samplingType")) mcm in
    set_amount (typed.sampling_type == sampling_by_rate) field typed

-- Whether the text switches the tracing off, and the settings if it does not.
abbrev pub switch : Bool → (Bytes → Option ℤ) → Settings → Settings
switch true field mcm = record mcm { enable = 0 }
switch false field mcm = set_sampling field (record mcm { enable = 1 })

abbrev pub set_enable : Option ℤ → (Bytes → Option ℤ) → Settings → Settings
set_enable none field mcm = set_sampling field mcm
set_enable (some n) field mcm = switch (is_zero n) field mcm

-- `mo_ctrl_update_sampling`: the code that it returns, and the settings. `none` is NULL.
unfoldable pub update_sampling : Option Decoded → Settings → ℤ × Settings
update_sampling none mcm = (negsuc 0, mcm)
update_sampling (some no_array) mcm = (negsuc 0, mcm)
update_sampling (some (array field)) mcm = (pos 0, set_enable (field (codes "enable")) field mcm)
