-- ===== src/Registry/Circuit/Recovery.antt =====
-- How a breaker opens, how long it stays open, and what closes it again.
use provider_health_daemon.Base.{
  ℕ, ◌+◌, ◌-◌, ◌≤◌, ◌<◌, min, ◌≡◌, refl, Bool, false, List, [], ◌∷◌, ◌++◌, map, arith, leb, length,
  filter, All, length-filter-le,
}
use provider_health_daemon.Clock.{at}
use provider_health_daemon.Registry.{Breaker, BreakerState, closed, opened, half_open}
use provider_health_daemon.Registry.Circuit.{
  cb_open_timeout, cb_window, cb_success_threshold, cb_failure_threshold, is_recent, execute_step,
}
use provider_health_daemon.Registry.Circuit.Machine.{
  Event, fail, succeed, execute, release, step, machine, run, IsValid, step-IsValid, run-IsValid,
}

-- The successes that are still missing before the breaker may close.
abbrev missing_in : BreakerState → ℕ → ℕ
missing_in closed successes = 0
missing_in half_open successes = cb_success_threshold - successes
missing_in _ successes = cb_success_threshold

missing : Breaker → ℕ
missing cb = missing_in cb.state cb.successes

abbrev pub successes_in : List Event → ℕ
successes_in [] = 0
successes_in (succeed _ ∷ es) = 1 + successes_in es
successes_in (_ ∷ es) = successes_in es

missing-step : (cb : Breaker) (e : Event) → missing cb ≤ missing (step cb e) + successes_in (e ∷ [])
unfolding missing machine
missing-step cb (fail now) = ground arith
missing-step cb (succeed now) = ground arith
missing-step cb (execute now acquire) = ground arith
missing-step cb release = ground arith

missing-run : (cb : Breaker) (es : List Event) → missing cb ≤ missing (run cb es) + successes_in es
unfolding run
missing-run cb [] = omega arith
missing-run cb (fail now ∷ es) =
    omega (arith, missing-step cb (fail now), missing-run (step cb (fail now)) es)
missing-run cb (succeed now ∷ es) =
    omega (arith, missing-step cb (succeed now), missing-run (step cb (succeed now)) es)
missing-run cb (execute now acquire ∷ es) =
    omega
      (arith, missing-step cb (execute now acquire), missing-run (step cb (execute now acquire)) es)
missing-run cb (release ∷ es) =
    omega (arith, missing-step cb release, missing-run (step cb release) es)

-- An open breaker closes only after three or more recorded successes, whatever else happens to it.
pub closes_after_successes :
    (cb : Breaker) (es : List Event)
    → cb.state ≡ opened
    → (run cb es).state ≡ closed
    → cb_success_threshold ≤ successes_in es
unfolding missing
closes_after_successes cb es start end = ground (arith, missing-run cb es)

-- The event happens before the instant.
abbrev pub IsBefore : ℕ → Event → Type 0
IsBefore limit (fail now) = now < limit
IsBefore limit (succeed now) = now < limit
IsBefore limit (execute now _) = now < limit
IsBefore limit release = Unit

stays_open :
    (cb : Breaker) (t : ℕ) (e : Event)
    → cb.state ≡ opened
    → cb.last_state_change ≡ at t
    → IsBefore (t + cb_open_timeout) e
    → ((step cb e).state ≡ opened) × ((step cb e).last_state_change ≡ at t)
unfolding machine
stays_open cb t (fail now) s c b = ground arith
stays_open cb t (succeed now) s c b = ground arith
stays_open cb t (execute now acquire) s c b = ground arith
stays_open cb t release s c b = ground arith

-- For three minutes after it opened, a breaker refuses every request, whatever happens to it in that
-- time.
pub refuses_while_open :
    (cb : Breaker) (t : ℕ) (es : List Event) (now : ℕ) (acquire : Bool)
    → cb.state ≡ opened
    → cb.last_state_change ≡ at t
    → All (IsBefore (t + cb_open_timeout)) es
    → now < t + cb_open_timeout
    → (execute_step now acquire (run cb es)).2 ≡ false
unfolding run execute_step
refuses_while_open cb t [] now acquire s c b h = ground arith
refuses_while_open cb t (e ∷ es) now acquire s c b h =
    let (s', c') = stays_open cb t e s c b.0 in
    refuses_while_open (step cb e) t es now acquire s' c' b.1 h

-- How near a breaker is to being open, by the failures since an instant.
abbrev heat_in : ℕ → BreakerState → List ℕ → ℕ
heat_in since closed failures = length (filter (leb since) failures)
heat_in since opened failures = cb_failure_threshold
heat_in since half_open failures = cb_failure_threshold - 1
heat_in since _ failures = 0

heat : ℕ → Breaker → ℕ
heat since cb = heat_in since cb.state cb.failures

filter-filter :
    (since now : ℕ) (xs : List ℕ)
    → now < since + cb_window
    → length (filter (leb since) (filter (is_recent cb_window now) xs))
      ≡ length (filter (leb since) xs)
unfolding filter
filter-filter since now [] h = refl
filter-filter since now (x ∷ xs) h = ground (arith, filter-filter since now xs h)

filter-append_one :
    (since now : ℕ) (xs : List ℕ)
    → since ≤ now
    → length (filter (leb since) (xs ++ now ∷ [])) ≡ length (filter (leb since) xs) + 1
unfolding filter
filter-append_one since now [] h = ground arith
filter-append_one since now (x ∷ xs) h = ground (arith, filter-append_one since now xs h)

heat-fail :
    (since now : ℕ) (cb : Breaker)
    → IsValid cb
    → since ≤ now
    → now < since + cb_window
    → min cb_failure_threshold (heat since cb + 1) ≤ heat since (step cb (fail now))
unfolding heat machine
heat-fail since now cb v low high = ground (
  arith,
  filter-filter since now cb.failures high,
  filter-append_one since now (filter (is_recent cb_window now) cb.failures) low,
)

-- The instant lies in the ten minutes from `since` on.
abbrev pub IsWithin : ℕ → ℕ → Type 0
IsWithin since t = (since ≤ t) × (t < since + cb_window)

heat-run :
    (since : ℕ) (cb : Breaker) (ts : List ℕ)
    → IsValid cb
    → All (IsWithin since) ts
    → min cb_failure_threshold (heat since cb + length ts) ≤ heat since (run cb (map fail ts))
unfolding run
heat-run since cb [] v w = omega arith
heat-run since cb (t ∷ ts) v w = omega (
  arith,
  heat-fail since t cb v w.0.0 w.0.1,
  heat-run since (step cb (fail t)) ts (step-IsValid cb (fail t) v) w.1,
)

hot-opened :
    (since : ℕ) (cb : Breaker)
    → IsValid cb
    → cb_failure_threshold ≤ heat since cb
    → cb.state ≡ opened
unfolding heat
hot-opened since cb v h = ground (arith, length-filter-le (leb since) cb.failures)

-- Five failures or more, all in the ten minutes from one instant on, leave a valid breaker open.
pub burst_opens :
    (since : ℕ) (cb : Breaker) (ts : List ℕ)
    → IsValid cb
    → All (IsWithin since) ts
    → cb_failure_threshold ≤ length ts
    → (run cb (map fail ts)).state ≡ opened
burst_opens since cb ts v w enough =
    hot-opened since (run cb (map fail ts)) (run-IsValid cb (map fail ts) v)
      (omega (arith, heat-run since cb ts v w))
