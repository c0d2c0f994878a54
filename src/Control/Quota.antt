-- ===== src/Control/Quota.antt =====
-- How many requests of a minute are sampled by number.
use molten.Common.{
  ℕ, zero, suc, ◌-◌, ◌≡◌, ◌≢◌, refl, false, arith, min, if◌then◌else◌, ltb, ltb_ℤ, ==_refl, pos,
  ◌+ℤ◌, Result, ok, ◌>>=◌, ◌==◌,
}
use molten.Control.{Control, sampling_by_rate, missing, count_request, sample_by_settings, sampling}

pos_suc : (r : ℕ) → pos r +ℤ pos 1 ≡ pos (suc r)
unfolding ◌+ℤ◌
pos_suc r = ground arith

ltb_ℤ-pos : (m n : ℕ) → ltb_ℤ (pos m) (pos n) ≡ ltb m n
ltb_ℤ-pos m n = ground arith

min-step :
    (k limit r : ℕ)
    → (if ltb (suc r) limit then suc (min k (limit - suc (suc r))) else min k (limit - suc (suc r)))
      ≡ min (suc k) (limit - suc r)
min-step k limit r = ground arith

first_min-step :
    (k limit : ℕ)
    → (if ltb 0 limit then suc (min k (limit - 1)) else min k (limit - 1)) ≡ min (suc k) limit
first_min-step k limit = ground arith

-- The number of sampled requests among `k` that come one after another in minute `now` with no header,
-- and the state they leave. The draws `num` are not used when sampling by number.
unfoldable pub sampled_among : ℕ → ℕ → ℕ → Control → Result (ℕ × Control)
sampled_among now num zero prt = ok (0, prt)
sampled_among now num (suc k) prt = do
  (hit, prt1) ← sampling prt false missing now num
  (n, prt2) ← sampled_among now num k prt1
  ok ((if hit then suc n else n), prt2)

-- The control block in minute `now`, when `r` requests have been counted.
abbrev pub counted : Control → ℕ → ℕ → Control
counted prt now r = record prt { msr = record { last_min = now; request_num = pos r } }

module _ (now num limit : ℕ) (prt : Control) (by_number : prt.mcm.sampling_type ≢ sampling_by_rate)
    (limited : prt.mcm.sampling_request ≡ pos limit) where
  not_by_rate : (prt.mcm.sampling_type == sampling_by_rate) ≡ false
  not_by_rate = ground arith

  -- One more request in the same minute.
  sampling-same :
      (r : ℕ)
      → sampling (counted prt now r) false missing now num
        ≡ ok (ltb (suc r) limit, counted prt now (suc r))
  unfolding sampling sample_by_settings count_request
  sampling-same r = rw (not_by_rate, ==_refl now, limited, pos_suc r, ltb_ℤ-pos (suc r) limit) refl

  -- The first request in another minute.
  sampling-other :
      prt.msr.last_min ≢ now
      → sampling prt false missing now num ≡ ok (ltb 0 limit, counted prt now 0)
  unfolding sampling sample_by_settings count_request
  sampling-other ne =
      let other : (now == prt.msr.last_min) ≡ false = ground arith in
      rw (not_by_rate, other, limited, ltb_ℤ-pos 0 limit) refl

  -- Inside a minute that has counted `r` requests, the next are sampled up to the limit.
  among-counted :
      (k r : ℕ)
      → (prt' : Control) × (sampled_among now num k (counted prt now r)
          ≡ ok (min k (limit - suc r), prt'))
  unfolding sampled_among
  among-counted zero r = (counted prt now r, ground arith)
  among-counted (suc k) r =
      let (prt', e) = among-counted k (suc r) in
      (prt', rw (sampling-same r, e, min-step k limit r) refl)

-- In one process, of the first `k` requests in a new minute that come one after another over the web and
-- without a header that says whether they are sampled, when sampling by number, just the first `limit`
-- or all, if they are fewer, are sampled. (Requests of several processes at the same time are not covered:
-- they share the counter without a lock.)
pub sampled_among-min :
    (now num limit k : ℕ) (prt : Control)
    → prt.mcm.sampling_type ≢ sampling_by_rate
    → prt.mcm.sampling_request ≡ pos limit
    → prt.msr.last_min ≢ now
    → (prt' : Control) × (sampled_among now num k prt ≡ ok (min k limit, prt'))
unfolding sampled_among
sampled_among-min now num limit zero prt by_number limited ne = (prt, ground arith)
sampled_among-min now num limit (suc k) prt by_number limited ne =
    let (prt', e) = among-counted now num limit prt by_number limited k 0 in
    (
      prt',
      rw (sampling-other now num limit prt by_number limited ne, e, first_min-step k limit) refl,
    )
