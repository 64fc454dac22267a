-- ===== src/Registry/Circuit/Machine.antt =====
-- The breaker as a state machine: what each event may do to it, and what its life keeps true.
use provider_health_daemon.Base.{
  ℕ, ◌≤◌, ◌<◌, Bool, List, [], ◌∷◌, arith, length, length-append, length-filter-le,
}
use provider_health_daemon.Registry.{Breaker, BreakerState, closed, opened, half_open}
use provider_health_daemon.Registry.Circuit.{
  cb_failure_threshold, cb_success_threshold, cb_half_open_max_requests, cb_window, is_recent,
  clean_old_failures, failure_step, success_step, execute_step, release_step,
}

-- What the registry's methods do to one breaker, with the instant at which they do it.
pub data Event : Type 0 where
  fail : ℕ → Event
  succeed : ℕ → Event
  execute : ℕ → Bool → Event
  release : Event

unfoldable pub step : Breaker → Event → Breaker
step cb (fail now) = failure_step now cb
step cb (succeed now) = success_step now cb
step cb (execute now acquire) = (execute_step now acquire cb).0
step cb release = (release_step cb).0

-- Everything that a step computes with.
unfoldable pub machine : Unit {0}
unfolding step failure_step success_step execute_step release_step clean_old_failures
machine = tt

unfoldable pub run : Breaker → List Event → Breaker
run cb [] = cb
run cb (e ∷ es) = run (step cb e) es

-- How many failures a closed breaker holds, and how many successes a half-open one.
abbrev CountsFit : BreakerState → ℕ → ℕ → Type 0
CountsFit closed failures successes = failures < cb_failure_threshold
CountsFit opened failures successes = Unit
CountsFit half_open failures successes = successes < cb_success_threshold
CountsFit (BreakerState.other _) failures successes = ⊥

-- A closed breaker has fewer failures than trip it, a half-open one fewer successes than close it,
-- no breaker is in an unknown state, and never are more requests reserved than the limit.
pub record IsValid (cb : Breaker) : Type 0 where
  pub requests : cb.half_open_requests ≤ cb_half_open_max_requests
  pub counts : CountsFit cb.state (length cb.failures) cb.successes

length-cleaned :
    (now : ℕ) (cb : Breaker) → length (clean_old_failures now cb).failures ≤ length cb.failures
unfolding clean_old_failures
length-cleaned now cb = length-filter-le (is_recent cb_window now) cb.failures

pub step-IsValid : (cb : Breaker) (e : Event) → IsValid cb → IsValid (step cb e)
unfolding machine
step-IsValid cb (fail now) v =
    ground
      (arith, length-cleaned now cb, length-append (clean_old_failures now cb).failures (now ∷ []))
step-IsValid cb (succeed now) v =
    ground
      (arith, length-cleaned now cb, length-append (clean_old_failures now cb).failures (now ∷ []))
step-IsValid cb (execute now acquire) v = ground arith
step-IsValid cb release v = ground arith

-- Every breaker that starts valid stays valid, whatever happens to it.
pub run-IsValid : (cb : Breaker) (es : List Event) → IsValid cb → IsValid (run cb es)
unfolding run
run-IsValid cb [] v = v
run-IsValid cb (e ∷ es) v = run-IsValid (step cb e) es (step-IsValid cb e v)
