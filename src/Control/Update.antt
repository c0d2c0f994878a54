-- ===== src/Control/Update.antt =====
-- What a change of the sampling over HTTP does to the settings.
use molten.Common.{
  ◌≡◌, ◌⊎◌, inl, inr, refl, ap, sym, ◌∙◌, Bool, true, false, Option, none, some, Bytes, codes, ℤ,
  pos, ◌==◌,
}
use molten.Control.{
  Settings, sampling_by_rate, Decoded, no_array, array, or_keep, is_zero, set_type, set_amount,
  set_sampling, switch, set_enable, update_sampling,
}

-- Of the rate and the number of requests, at most one is changed.
abbrev OneKept : Settings → Settings → Type 0
OneKept mcm mcm' =
    (mcm'.sampling_rate ≡ mcm.sampling_rate) ⊎ (mcm'.sampling_request ≡ mcm.sampling_request)

set_amount-OneKept :
    (b : Bool) (o : Option ℤ) (field : Bytes → Option ℤ) (mcm : Settings)
    → OneKept mcm (set_amount b field (set_type o mcm))
set_amount-OneKept true none field mcm = inr refl
set_amount-OneKept true (some t) field mcm = inr refl
set_amount-OneKept false none field mcm = inl refl
set_amount-OneKept false (some t) field mcm = inl refl

set_sampling-OneKept :
    (field : Bytes → Option ℤ) (mcm : Settings) → OneKept mcm (set_sampling field mcm)
unfolding set_sampling
set_sampling-OneKept field mcm =
    let o = field (codes "samplingType") in
    set_amount-OneKept ((set_type o mcm).sampling_type == sampling_by_rate) o field mcm

set_enable-OneKept :
    (o : Option ℤ) (field : Bytes → Option ℤ) (mcm : Settings)
    → OneKept mcm (set_enable o field mcm)
set_enable-OneKept none field mcm = set_sampling-OneKept field mcm
set_enable-OneKept (some n) field mcm = switched (is_zero n)
  where
    switched : (b : Bool) → OneKept mcm (switch b field mcm)
    switched true = inl refl
    switched false = set_sampling-OneKept field (record mcm { enable = 1 })

-- No text that is posted changes both the rate and the number of requests: of the two, at least one is
-- what it was.
pub update_sampling-kept :
    (rec : Option Decoded) (mcm : Settings)
    → ((update_sampling rec mcm).1.sampling_rate ≡ mcm.sampling_rate)
      ⊎ ((update_sampling rec mcm).1.sampling_request ≡ mcm.sampling_request)
unfolding update_sampling
update_sampling-kept none mcm = inl refl
update_sampling-kept (some no_array) mcm = inl refl
update_sampling-kept (some (array field)) mcm =
    set_enable-OneKept (field (codes "enable")) field mcm

or_keep_idem {ℓ} : {A : Type ℓ} (o : Option A) (a : A) → or_keep o (or_keep o a) ≡ or_keep o a
or_keep_idem none a = refl
or_keep_idem (some b) a = refl

set_amount_idem :
    (b : Bool) (field : Bytes → Option ℤ) (mcm : Settings)
    → set_amount b field (set_amount b field mcm) ≡ set_amount b field mcm
set_amount_idem true field mcm =
    ap (λ r. record mcm { sampling_rate = r })
      (or_keep_idem (field (codes "samplingRate")) mcm.sampling_rate)
set_amount_idem false field mcm =
    ap (λ r. record mcm { sampling_request = r })
      (or_keep_idem (field (codes "samplingRequest")) mcm.sampling_request)

set_amount-type :
    (b : Bool) (field : Bytes → Option ℤ) (mcm : Settings)
    → (set_amount b field mcm).sampling_type ≡ mcm.sampling_type
set_amount-type true field mcm = refl
set_amount-type false field mcm = refl

set_amount-enable :
    (b : Bool) (o : Option ℤ) (field : Bytes → Option ℤ) (mcm : Settings)
    → (set_amount b field (set_type o mcm)).enable ≡ mcm.enable
set_amount-enable true none field mcm = refl
set_amount-enable true (some t) field mcm = refl
set_amount-enable false none field mcm = refl
set_amount-enable false (some t) field mcm = refl

-- A type that the settings have already changes nothing.
set_type_same :
    (o : Option ℤ) (mcm mcm' : Settings)
    → mcm'.sampling_type ≡ (set_type o mcm).sampling_type
    → set_type o mcm' ≡ mcm'
set_type_same none mcm mcm' h = refl
set_type_same (some t) mcm mcm' h = ap (λ x. record mcm' { sampling_type = x }) (sym h)

set_sampling_idem :
    (field : Bytes → Option ℤ) (mcm : Settings)
    → set_sampling field (set_sampling field mcm) ≡ set_sampling field mcm
unfolding set_sampling
set_sampling_idem field mcm =
    let o = field (codes "samplingType") in
    let typed = set_type o mcm in
    let b = typed.sampling_type == sampling_by_rate in
    let again = set_amount b field typed in
    let kept : again.sampling_type ≡ typed.sampling_type = set_amount-type b field typed in
    ap (λ x. set_amount (x.sampling_type == sampling_by_rate) field x)
      (set_type_same o mcm again kept)
    ∙ ap (λ t. set_amount (t == sampling_by_rate) field again) kept
    ∙ set_amount_idem b field typed

set_sampling-enable :
    (field : Bytes → Option ℤ) (mcm : Settings) → (set_sampling field mcm).enable ≡ mcm.enable
unfolding set_sampling
set_sampling-enable field mcm =
    let o = field (codes "samplingType") in
    set_amount-enable ((set_type o mcm).sampling_type == sampling_by_rate) o field mcm

switch_idem :
    (b : Bool) (field : Bytes → Option ℤ) (mcm : Settings)
    → switch b field (switch b field mcm) ≡ switch b field mcm
switch_idem true field mcm = refl
switch_idem false field mcm =
    let on = record mcm { enable = 1 } in
    let again = set_sampling field on in
    ap (λ e. set_sampling field (record again { enable = e })) (sym (set_sampling-enable field on))
    ∙ set_sampling_idem field on

set_enable_idem :
    (o : Option ℤ) (field : Bytes → Option ℤ) (mcm : Settings)
    → set_enable o field (set_enable o field mcm) ≡ set_enable o field mcm
set_enable_idem none field mcm = set_sampling_idem field mcm
set_enable_idem (some n) field mcm = switch_idem (is_zero n) field mcm

-- To post the same text a second time gives the same code and changes nothing more.
pub update_sampling_idem :
    (rec : Option Decoded) (mcm : Settings)
    → update_sampling rec (update_sampling rec mcm).1 ≡ update_sampling rec mcm
unfolding update_sampling
update_sampling_idem none mcm = refl
update_sampling_idem (some no_array) mcm = refl
update_sampling_idem (some (array field)) mcm =
    ap (λ x. (pos 0, x)) (set_enable_idem (field (codes "enable")) field mcm)
