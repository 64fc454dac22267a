-- ===== src/Tests/Health.antt =====
-- The theorems on errors, successes and the cleanup at concrete inputs.
use provider_health_daemon.Base.{
  ◌+◌, String, ◌≡◌, ◌≢◌, refl, true, false, none, some, [], ◌∷◌, arith, eq_iff, elem, contains,
  strip, lower, drop_prefix, drop_suffix, before,
}
use provider_health_daemon.Base.Dict.{get, put}
use provider_health_daemon.Aliases.{normalize_provider, is_denied}
use provider_health_daemon.Clock.{at, malformed, seconds}
use provider_health_daemon.Cooldown.{
  absent, calculate, fields, error_type, base_duration, is_transport, is_rate_limit,
  is_request_scoped, backoff, at_least_30s, jittered, longer_until, is_expired,
}
use provider_health_daemon.Registry.{
  Registry, Entry, cooldown, probing, save, get_provider, get_model, is_model_available,
}
use provider_health_daemon.Registry.GlobalGate.{is_global_gated}
use provider_health_daemon.Registry.Errors.{
  is_phantom_provider, named, mark_healthy, mark_error, failures_of, provider_result, model_result,
  provider_error_entry, current_until,
}
use provider_health_daemon.Registry.Errors.Effects.{existing_cooldown_ignored}
use provider_health_daemon.Registry.Errors.Blocking.{mark_error-blocks, mark_healthy-frees}
use provider_health_daemon.Registry.Cleanup.{
  is_garbage, rotate, lock, promote, base_error_type, replaced, fate, sweep_providers, sweep_models,
  cleanup_expired,
}
use provider_health_daemon.Registry.Cleanup.Limits.{rate_limit-rotates}
use provider_health_daemon.Registry.Cleanup.Sweep.{cleaned, cleanup_expired_idem}
use provider_health_daemon.Registry.Cleanup.Gaps.{cleanup_expired_raises}
use provider_health_daemon.Tests.Cooldowns.{daemon_calculator, rate_limited, noon}

program : Unit {0}
unfolding get put fields error_type base_duration is_transport is_rate_limit is_request_scoped
    backoff at_least_30s jittered longer_until calculate elem normalize_provider is_denied
    get_provider get_model is_phantom_provider named failures_of provider_result model_result
    current_until is_expired is_garbage rotate lock promote base_error_type fate sweep_providers
    sweep_models cleanup_expired save contains strip lower drop_prefix drop_suffix before
program = tt

abbrev cooling : Entry
cooling = record {
  status = some cooldown;
  until = some (at (noon + seconds 7200));
  reason = some "generic_429";
  failures = 1;
  backoff_applied = false;
  provider = none;
  model = none;
  models = [];
  updated_at = some (at noon);
  last_probe_at = none;
}

abbrev pub one_cooling : Registry
one_cooling = record {
  health = record {
    providers = ("groq", cooling) ∷ [];
    models = [];
    accounts = [];
    circuit_breakers = [];
    global_gate = none;
  };
  file = none;
  writable = true;
  calculator = daemon_calculator;
}

existing_cooldown_ignored_example :
    (provider_result noon 1_000_000 one_cooling rate_limited "groq"
      ≡ calculate daemon_calculator noon 1_000_000 rate_limited
          (failures_of (get_provider one_cooling "groq"))
          absent)
    × (model_result noon 1_000_000 one_cooling rate_limited "groq/a"
        ≡ calculate daemon_calculator noon 1_000_000 rate_limited
            (failures_of (get_model one_cooling "groq/a"))
            absent)
existing_cooldown_ignored_example =
    existing_cooldown_ignored noon 1_000_000 one_cooling rate_limited "groq" "groq/a"

-- Two hours were left; the second rate limit leaves ten minutes.
shortened :
    (provider_result noon 1_000_000 one_cooling rate_limited "groq").until
    ≡ some (noon + seconds 600)
unfolding program
shortened = refl

groq-ne-kr : ◌≢◌ {A = String} (normalize_provider "groq") "kr"
unfolding program
groq-ne-kr = ground (arith, eq_iff "groq" "kr")

mark_error-blocks_example :
    is_model_available
      (noon + seconds 599)
      (mark_error noon 1_000_000 one_cooling "groq" rate_limited none)
      "groq/llama"
    ≡ false
unfolding program
mark_error-blocks_example =
    mark_error-blocks noon 1_000_000 (noon + seconds 599) one_cooling rate_limited "groq" none
      "groq/llama" refl refl refl refl refl (omega arith)

mark_healthy-frees_example :
    (is_model_available noon (mark_healthy noon one_cooling "groq" (some "groq/llama")) "groq/llama"
      ≡ true)
    × (is_global_gated noon (mark_healthy noon one_cooling "groq" (some "groq/llama")) ≡ false)
unfolding program
mark_healthy-frees_example =
    mark_healthy-frees noon one_cooling "groq" "groq/llama" refl refl noon refl

rate_limit-rotates_example :
    fate (noon + seconds 86_400) (
      provider_error_entry noon
        (calculate daemon_calculator noon 1_000_000 rate_limited 29 absent)
        [])
    ≡ replaced (
        rotate (noon + seconds 86_400) (error_type rate_limited) (
          provider_error_entry noon
            (calculate daemon_calculator noon 1_000_000 rate_limited 29 absent)
            []))
unfolding program
rate_limit-rotates_example =
    rate_limit-rotates daemon_calculator noon 1_000_000 rate_limited 29 absent
      (noon + seconds 86_400) [] refl refl refl

cleanup_counts : (cleanup_expired (noon + seconds 7200) one_cooling).1 ≡ some 1
unfolding program
cleanup_counts = refl

cleanup_expired_idem_example :
    cleanup_expired (noon + seconds 7200) (cleaned (noon + seconds 7200) one_cooling)
    ≡ (cleaned (noon + seconds 7200) one_cooling, some 0)
cleanup_expired_idem_example =
    cleanup_expired_idem (noon + seconds 7200) 1 one_cooling (omega arith) cleanup_counts

abbrev broken : Entry
broken = record cooling { status = some probing; until = some malformed }

abbrev one_broken : Registry
one_broken = record one_cooling {
  health = record one_cooling.health { providers = ("kr", cooling) ∷ ("groq", broken) ∷ [] };
}

cleanup_expired_raises_example :
    ((cleanup_expired noon one_broken).1 ≡ none)
    × ((cleanup_expired noon one_broken).0.health.models ≡ [])
    × ((cleanup_expired noon one_broken).0.file ≡ none)
cleanup_expired_raises_example =
    cleanup_expired_raises noon one_broken (("kr", cooling) ∷ []) [] "groq" broken refl
      (record { status = refl; until = refl })

abbrev all_garbage : Registry
all_garbage = record one_cooling {
  health = record one_cooling.health {
    providers = ("groq", record cooling { status = none; until = none }) ∷ [];
  };
  file = some one_cooling.health;
}
