-- ===== src/Tests/Loading.antt =====
-- The theorems on the loading of the health file at concrete inputs.
use provider_health_daemon.Base.{◌+◌, false, some, none, [], ◌∷◌, elem, before, arith}
use provider_health_daemon.Base.Dict.{Dict}
use provider_health_daemon.Aliases.{is_denied}
use provider_health_daemon.Clock.{seconds}
use provider_health_daemon.Registry.{Breaker, Entry, Status, cooldown, probing, half_open}
use provider_health_daemon.Registry.Circuit.{new_breaker}
use provider_health_daemon.Registry.Circuit.Machine.{IsValid}
use provider_health_daemon.Registry.Loading.{HealthFile, holding, migrate_breaker}
use provider_health_daemon.Registry.Loading.Repairs.{Restarted, stored, migrate_breaker-Restarted}
use provider_health_daemon.Tests.Cooldowns.{noon}

program : Unit {0}
unfolding is_denied before elem
program = tt

abbrev in_flight : Breaker
in_flight = record (new_breaker noon) { state = half_open; half_open_requests = 3; successes = 2 }

in_flight-IsValid : IsValid in_flight
in_flight-IsValid = record { requests = omega arith; counts = omega arith }

migrate_breaker-Restarted_example :
    Restarted in_flight (migrate_breaker (noon + seconds 60) (some (stored in_flight)))
migrate_breaker-Restarted_example =
    migrate_breaker-Restarted (noon + seconds 60) in_flight in_flight-IsValid

abbrev entry_in : Status → Entry
entry_in s = record {
  status = some s;
  until = none;
  reason = some "generic_429";
  failures = 2;
  backoff_applied = false;
  provider = some "kiro";
  model = none;
  models = [];
  updated_at = none;
  last_probe_at = none;
}

abbrev twice : Dict Entry
twice = ("kiro", entry_in cooldown) ∷ ("kr", entry_in probing) ∷ []

abbrev leaked : HealthFile
leaked = holding (record {
  providers = ("model-a", entry_in cooldown) ∷ twice;
  models = ("mock/llama", entry_in cooldown) ∷ [];
  accounts = [];
  circuit_breakers = [];
  global_gate = none;
})
