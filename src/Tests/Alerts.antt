-- ===== src/Tests/Alerts.antt =====
-- The theorems on alerts, account pools and probes of disabled providers at concrete inputs.
use provider_health_daemon.Base.{
  ℕ, ◌+◌, String, ◌≡◌, refl, true, false, none, some, [], ◌∷◌, arith, elem,
}
use provider_health_daemon.Base.Dict.{Dict, get, put}
use provider_health_daemon.Aliases.{normalize_provider, is_denied}
use provider_health_daemon.Clock.{seconds, days}
use provider_health_daemon.Alerts.{
  Alerter, Look, Transition, new_alerter, alert, is_significant, is_pair_in, is_throttled,
  is_recent_alert,
}
use provider_health_daemon.Alerts.Throttle.{alerts, alert-throttled}
use provider_health_daemon.Registry.{Registry, Account, Entry, text, number, disabled, empty_state}
use provider_health_daemon.Registry.Accounts.{not_null, find_account, id_eq}
use provider_health_daemon.Registry.Probes.{is_disabled}
use provider_health_daemon.Tests.Cooldowns.{daemon_calculator}

program : Unit {0}
unfolding get put is_significant is_pair_in is_throttled is_recent_alert alert not_null find_account
    id_eq is_disabled elem normalize_provider is_denied
program = tt

abbrev noon : ℕ
noon = days 739_000

abbrev down : String → Transition
down name = record {
  provider = name;
  from = "healthy";
  to = "cooldown";
  reason = some "generic_429";
}

abbrev bell : Alerter
bell = new_alerter (seconds 300)

alert-throttled_example :
    alert
      (noon + seconds 200)
      (alerts (alert noon bell (down "groq")).0 ((noon + seconds 9, down "kr") ∷ []))
      (down "groq")
    ≡ (alerts (alert noon bell (down "groq")).0 ((noon + seconds 9, down "kr") ∷ []), false)
unfolding program
alert-throttled_example =
    alert-throttled bell noon (noon + seconds 200) (down "groq") (down "groq")
      ((noon + seconds 9, down "kr") ∷ []) refl (refl, tt) refl refl (omega arith)

abbrev looked : Alerter
looked = record bell { previous_state = ("groq", "healthy") ∷ [] }

abbrev seen : Dict Look
seen = ("groq", record { status = some "cooldown"; reason = none }) ∷ []

abbrev manual : Account
manual = ("id", number 7) ∷ ("pinned", text "yes") ∷ ("status", text "active") ∷ []

abbrev sent : Account
sent = ("id", number 7) ∷ ("status", text "error") ∷ []

abbrev dead : Entry
dead = record {
  status = some disabled;
  until = none;
  reason = some "no_credits";
  failures = 3;
  backoff_applied = false;
  provider = some "groq";
  model = none;
  models = [];
  updated_at = none;
  last_probe_at = none;
}

abbrev pooled : Registry
pooled = record {
  health = record empty_state {
    accounts = ("groq", manual ∷ sent ∷ []) ∷ [];
    providers = ("groq", dead) ∷ [];
  };
  file = none;
  writable = true;
  calculator = daemon_calculator;
}
