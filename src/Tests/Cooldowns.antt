-- ===== src/Tests/Cooldowns.antt =====
-- The theorems on cooldowns and names at concrete inputs.
use provider_health_daemon.Base.{
  ℕ, ◌*◌, ◌≤◌, max, ◌≡◌, refl, false, none, some, arith, leb, not, ◌&&◌, if◌then◌else◌, ◌==◌, elem,
  any,
}
use provider_health_daemon.Clock.{seconds, days}
use provider_health_daemon.Cooldown.{
  Calculator, ErrorInfo, absent, fields, error_type, base_duration, is_transport, is_rate_limit,
  is_request_scoped, backoff, at_least_30s, jittered, longer_until, calculate,
}
use provider_health_daemon.Cooldown.Permanence.{calculate-permanent}
use provider_health_daemon.Cooldown.Bounds.{calculate-duration-le}

program : Unit {0}
unfolding fields error_type base_duration is_transport is_rate_limit is_request_scoped backoff
    at_least_30s jittered longer_until calculate elem any
program = tt

abbrev pub daemon_calculator : Calculator
daemon_calculator = record { max_cooldown = seconds 86_400; max_failures = 30 }

abbrev pub rate_limited : ErrorInfo
rate_limited = record {
  cooldown = some (record { hours = some 0; minutes = some 5; type = some "generic_429" });
  flat = record { hours = none; minutes = none; type = none };
  permanent = false;
  model_specific = false;
  recheck = false;
  global = false;
}

abbrev pub noon : ℕ
noon = days 739_000

-- The third failure in a row: five minutes, twice doubled.
third_duration :
    (calculate daemon_calculator noon 1_000_000 rate_limited 2 absent).duration
    ≡ some (seconds 1200)
unfolding program
third_duration = refl

calculate-permanent_example :
    (calculate daemon_calculator noon 1_000_000 rate_limited 29 absent).permanent ≡ (
      not (is_transport rate_limited)
      && (if leb 30 30
          then not (is_rate_limit rate_limited) && not (is_request_scoped rate_limited)
          else false))
calculate-permanent_example =
    calculate-permanent daemon_calculator noon 1_000_000 rate_limited 29 absent

calculate-duration-le_example :
    100 * seconds 1200
    ≤ 115 * (if 2 == 0 then max (base_duration rate_limited) (seconds 86_400) else seconds 86_400)
calculate-duration-le_example =
    calculate-duration-le daemon_calculator noon 1_000_000 rate_limited 2 absent (seconds 1200)
      (omega arith) (omega arith) third_duration
