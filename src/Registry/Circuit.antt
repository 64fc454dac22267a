-- ===== src/Registry/Circuit.antt =====
-- health_registry.py: the circuit breakers and the tracking of rate limits.
use provider_health_daemon.Base.{
  ℕ, ◌+◌, ◌-◌, ◌*◌, min, String, Bool, true, false, ◌&&◌, Option, none, some, List, [], ◌∷◌, ◌++◌,
  ltb, leb, if◌then◌else◌, length, filter,
}
use provider_health_daemon.Base.Dict.{Dict, get, put}
use provider_health_daemon.Aliases.{normalize_provider, is_denied}
use provider_health_daemon.Clock.{Stamp, at, malformed, seconds}
use provider_health_daemon.Registry.{
  Registry, Health, Breaker, BreakerState, closed, opened, half_open, save, Entry, get_provider,
  entry_is_healthy,
}
pub mod Machine
pub mod Recovery
pub mod Store
pub mod Calls
pub mod Reads

abbrev pub cb_failure_threshold : ℕ
cb_failure_threshold = 5

abbrev pub cb_success_threshold : ℕ
cb_success_threshold = 3

abbrev pub cb_window : ℕ
cb_window = seconds 600

abbrev pub cb_open_timeout : ℕ
cb_open_timeout = seconds 180

abbrev pub cb_half_open_max_requests : ℕ
cb_half_open_max_requests = 3

abbrev pub window_429 : ℕ
window_429 = seconds 600

abbrev pub threshold_429 : ℕ
threshold_429 = 3

abbrev pub new_breaker : ℕ → Breaker
new_breaker now = record {
  state = closed;
  failures = [];
  successes = 0;
  last_failure = none;
  last_state_change = at now;
  half_open_requests = 0;
  recent_429s = [];
}

-- `self._data[CIRCUIT_BREAKERS][provider] = cb`
abbrev pub put_cb : Registry → String → Breaker → Registry
put_cb r provider cb = record r {
  health = record r.health { circuit_breakers = put r.health.circuit_breakers provider cb };
}

abbrev or_new : ℕ → Registry → String → Option Breaker → Registry × Breaker
or_new now r provider none = (put_cb r provider (new_breaker now), new_breaker now)
or_new now r provider (some cb) = (r, cb)

-- `_get_cb`: a provider that has no breaker gets a closed one.
unfoldable pub get_cb : ℕ → Registry → String → Registry × Breaker
get_cb now r name =
    let provider = normalize_provider name in
    or_new now r provider (get r.health.circuit_breakers provider)

-- `ts > now - window`
abbrev pub is_recent : ℕ → ℕ → ℕ → Bool
is_recent window now ts = ltb now (ts + window)

unfoldable pub clean_old_failures : ℕ → Breaker → Breaker
clean_old_failures now cb = record cb { failures = filter (is_recent cb_window now) cb.failures }

-- The transition that a failure makes, after it was appended.
abbrev trip : ℕ → Breaker → BreakerState → Breaker
trip now cb closed =
    if leb cb_failure_threshold (length cb.failures)
    then record cb { state = opened; last_state_change = at now }
    else cb
trip now cb half_open = record cb {
  state = opened;
  last_state_change = at now;
  successes = 0;
  half_open_requests = 0;
}
trip now cb _ = cb

unfoldable pub failure_step : ℕ → Breaker → Breaker
failure_step now cb =
    let cleaned = clean_old_failures now cb in
    let failed = record cleaned {
      failures = cleaned.failures ++ now ∷ [];
      last_failure = some now;
    } in
    trip now failed cb.state

unfoldable pub record_cb_failure : ℕ → Registry → String → Registry
record_cb_failure now r name =
    let provider = normalize_provider name in
    if is_denied provider
    then r
    else (let (r', cb) = get_cb now r provider in save (put_cb r' provider (failure_step now cb)))

abbrev recover : ℕ → Breaker → BreakerState → Breaker
recover now cb half_open =
    let counted = record cb {
      successes = cb.successes + 1;
      half_open_requests = cb.half_open_requests - 1;
    } in
    if leb cb_success_threshold counted.successes
    then record counted { state = closed; failures = []; successes = 0; last_state_change = at now }
    else counted
recover now cb closed = clean_old_failures now cb
recover now cb _ = cb

unfoldable pub success_step : ℕ → Breaker → Breaker
success_step now cb = recover now cb cb.state

unfoldable pub record_cb_success : ℕ → Registry → String → Registry
record_cb_success now r name =
    let provider = normalize_provider name in
    if is_denied provider
    then r
    else (let (r', cb) = get_cb now r provider in save (put_cb r' provider (success_step now cb)))

-- Whether three minutes have passed since the breaker opened; a malformed time never lets it.
abbrev timeout_passed : ℕ → Stamp → Bool
timeout_passed now (at changed) = leb (changed + cb_open_timeout) now
timeout_passed now malformed = false

abbrev reserve : Bool → Breaker → Breaker
reserve true cb = record cb { half_open_requests = cb.half_open_requests + 1 }
reserve false cb = cb

-- The new breaker, whether it is to be saved, and the answer.
abbrev admit : ℕ → Bool → Breaker → BreakerState → Breaker × Bool × Bool
admit now acquire cb closed = (cb, false, true)
admit now acquire cb opened =
    if timeout_passed now cb.last_state_change
    then (
      reserve acquire (record cb {
        state = half_open;
        successes = 0;
        half_open_requests = 0;
        last_state_change = at now;
      }),
      true,
      true,
    )
    else (cb, false, false)
admit now acquire cb half_open =
    if leb cb_half_open_max_requests cb.half_open_requests
    then (cb, false, false)
    else (reserve acquire cb, acquire, true)
admit now acquire cb _ = (cb, false, false)

unfoldable pub execute_step : ℕ → Bool → Breaker → Breaker × Bool × Bool
execute_step now acquire cb = admit now acquire cb cb.state

unfoldable pub can_execute_cb : ℕ → Registry → String → Bool → Registry × Bool
can_execute_cb now r name acquire =
    let provider = normalize_provider name in
    if is_denied provider
    then (r, true)
    else (let (r', cb) = get_cb now r provider in
        let (cb', changed, answer) = execute_step now acquire cb in
        let r'' = put_cb r' provider cb' in (if changed then save r'' else r'', answer))

unfoldable pub acquire_cb : ℕ → Registry → String → Registry × Bool
unfolding can_execute_cb
acquire_cb now r name = can_execute_cb now r name true

abbrev give_back : Breaker → BreakerState → Breaker × Bool
give_back cb half_open =
    if ltb 0 cb.half_open_requests
    then (record cb { half_open_requests = cb.half_open_requests - 1 }, true)
    else (cb, false)
give_back cb _ = (cb, false)

unfoldable pub release_step : Breaker → Breaker × Bool
release_step cb = give_back cb cb.state

unfoldable pub release_cb : ℕ → Registry → String → Registry
release_cb now r name =
    let provider = normalize_provider name in
    let (r', cb) = get_cb now r provider in
    let (cb', changed) = release_step cb in
    let r'' = put_cb r' provider cb' in if changed then save r'' else r''

unfoldable pub rate_limit_step : ℕ → Breaker → Breaker
rate_limit_step now cb = record cb {
  recent_429s = filter (is_recent window_429 now) cb.recent_429s ++ now ∷ [];
}

unfoldable pub record_cb_429 : ℕ → Registry → String → Registry
record_cb_429 now r name =
    let provider = normalize_provider name in
    if is_denied provider
    then r
    else (let (r', cb) = get_cb now r provider in
        save (put_cb r' provider (rate_limit_step now cb)))

-- 100 for each rate limit in the window from the third on, 500 at most.
unfoldable pub penalty_of : ℕ → ℕ
penalty_of count =
    if leb threshold_429 count then min ((count - threshold_429 + 1) * 100) 500 else 0

unfoldable pub get_429_penalty : ℕ → Registry → String → ℕ
unfolding penalty_of
get_429_penalty now r name = elim (get r.health.circuit_breakers (normalize_provider name)) [
  | none ↦ 0
  | some cb ↦ penalty_of (length (filter (is_recent window_429 now) cb.recent_429s))
]

-- The breaker is asked first, without reserving a request; an entry with no status is healthy.
unfoldable pub is_provider_healthy : ℕ → Registry → String → Registry × Bool
is_provider_healthy now r name =
    let (r', answer) = can_execute_cb now r name false in
    if answer
    then elim (get_provider r' name) [
      | none ↦ (r', true)
      | some e ↦ elim e.status [ none ↦ (r', true) | some _ ↦ (r', entry_is_healthy now e) ]
    ]
    else (r', false)
