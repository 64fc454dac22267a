-- ===== src/Cooldown/Bounds.antt =====
-- How long a calculated cooldown lasts: the jitter's band, the cap, the doubling, and what an
-- existing cooldown changes.
use native.Mathlib.Nat.{mul-le-mul_left, pow-le-pow_right, one-le-pow, le-mul_of_pos_right}
use provider_health_daemon.Base.{
  ℕ, ◌+◌, ◌-◌, ◌*◌, ◌^◌, ◌≤◌, min, max, ◌≡◌, refl, ◌↔◌, true, some, arith, ◌==◌, if◌then◌else◌,
}
use provider_health_daemon.Clock.{at, seconds, days}
use provider_health_daemon.Cooldown.{
  Calculator, ErrorInfo, CurrentUntil, absent, datetime, base_duration, is_transport, backoff,
  at_least_30s, jittered, longer_until, calculate, is_expired, time_remaining,
}

-- A failure never shortens the backoff of a base duration under the cap.
pub backoff_mono :
    (calc : Calculator) (base failures : ℕ)
    → base ≤ calc.max_cooldown
    → backoff calc base failures ≤ backoff calc base (failures + 1)
unfolding backoff
backoff_mono calc base failures h =
    let more : base * 2 ^ min (failures - 1) 30 ≤ base * 2 ^ min (failures + 1 - 1) 30 =
      mul-le-mul_left base (pow-le-pow_right {n = 2} (omega arith) (omega arith)) in
    let positive : 1 ≤ 2 ^ min (failures + 1 - 1) 30 =
      one-le-pow (min (failures + 1 - 1) 30) 2 (omega arith) in
    let once : base ≤ base * 2 ^ min (failures + 1 - 1) 30 = le-mul_of_pos_right base positive in
    ground arith

jittered-le : (jitter d : ℕ) → jitter ≤ 1_150_000 → 100 * jittered jitter d ≤ 115 * d
unfolding jittered
jittered-le jitter d high = let above : d * jitter ≤ d * 1_150_000 = grind arith in omega arith

raised-le :
    (calc : Calculator) (base failures : ℕ)
    → seconds 120 ≤ calc.max_cooldown
    → at_least_30s (backoff calc base (failures + 1))
      ≤ (if failures == 0 then max base calc.max_cooldown else calc.max_cooldown)
unfolding at_least_30s backoff
raised-le calc base failures h = ground arith

module _ (calc : Calculator) (now jitter : ℕ) (e : ErrorInfo) (failures : ℕ) where
  -- Every failure is counted, and a transport failure at most twice.
  pub calculate-failures :
      (current : CurrentUntil)
      → (calculate calc now jitter e failures current).failures
        ≡ (if is_transport e then min (failures + 1) 2 else failures + 1)
  unfolding calculate
  calculate-failures current = ground arith

  -- If the jitter is at most 15 percent and the cap at least two minutes, a finite cooldown lasts at
  -- most 115 percent of the cap, or of the error's own duration where that is longer and no failure
  -- came before.
  pub calculate-duration-le :
      (current : CurrentUntil) (d : ℕ)
      → jitter ≤ 1_150_000
      → seconds 120 ≤ calc.max_cooldown
      → (calculate calc now jitter e failures current).duration ≡ some d
      → 100 * d
        ≤ 115
          * (if failures == 0 then max (base_duration e) calc.max_cooldown else calc.max_cooldown)
  unfolding calculate
  calculate-duration-le current d high cap h = ground (
    arith,
    raised-le calc (base_duration e) failures cap,
    jittered-le jitter (at_least_30s (backoff calc (base_duration e) (failures + 1))) high,
  )

  -- A `datetime` for the existing cooldown has no effect: the result is that for no existing cooldown.
  pub calculate-datetime :
      (existing : ℕ)
      → calculate calc now jitter e failures (datetime existing)
        ≡ calculate calc now jitter e failures absent
  unfolding calculate longer_until
  calculate-datetime existing = refl

-- Of an instant within a year, a cooldown is expired exactly if no time remains.
pub is_expired-time_remaining :
    (now t : ℕ)
    → t ≤ now + days 365
    → (is_expired now (some (at t)) ≡ true) ↔ (time_remaining now (some (at t)) ≡ some 0)
unfolding is_expired time_remaining
is_expired-time_remaining now t h = ground arith
