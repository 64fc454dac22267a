-- ===== src/Registry/Errors.antt =====
-- health_registry.py: what a success and a parsed error write into the registry.
use Prim.Native.String.{◌++◌ as append}
use provider_health_daemon.Base.{
  ℕ, String, Bool, true, false, ◌&&◌, ◌||◌, not, Option, none, some, List, [], ◌∷◌, map, str_eq,
  if◌then◌else◌, filter, or_else, is_some, contains, drop_prefix,
}
use provider_health_daemon.Base.Dict.{Dict, get, put, remove, keys}
use provider_health_daemon.Aliases.{provider_alias_map, normalize_provider, is_denied}
use provider_health_daemon.Clock.{Stamp, at, malformed}
use provider_health_daemon.Cooldown.{ErrorInfo, Result, CurrentUntil, absent, datetime, calculate}
use provider_health_daemon.Registry.{
  Registry, Health, Entry, Status, healthy, cooldown, disabled, save, get_provider, get_model,
}
use provider_health_daemon.Registry.Circuit.{record_cb_failure, record_cb_success}
use provider_health_daemon.Registry.GlobalGate.{put_gate, set_global_gate}
pub mod Effects
pub mod Blocking

abbrev pub put_provider : Registry → String → Entry → Registry
put_provider r provider e = record r {
  health = record r.health { providers = put r.health.providers provider e };
}

abbrev pub put_model : Registry → String → Entry → Registry
put_model r model e = record r { health = record r.health { models = put r.health.models model e } }

-- `_is_phantom_provider`
unfoldable pub is_phantom_provider : String → Bool
is_phantom_provider name =
    if str_eq name ""
    then true
    else if contains name ":" || contains name "/"
    then true
    else is_some (drop_prefix "openai-compatible-chat-" name)
      && not (is_some (get provider_alias_map name))

unfoldable pub healthy_entry : String → Option String → Entry
healthy_entry provider model = record {
  status = some healthy;
  until = none;
  reason = none;
  failures = 0;
  backoff_applied = false;
  provider = some provider;
  model = model;
  models = [];
  updated_at = none;
  last_probe_at = none;
}

-- `if model:` is false of `None` and of the empty text.
unfoldable pub named : Option String → Option String
named none = none
named (some model) = if str_eq model "" then none else some model

abbrev put_healthy_model : Registry → String → Option String → Registry
put_healthy_model r provider none = r
put_healthy_model r provider (some model) = put_model r model (healthy_entry provider (some model))

unfoldable pub mark_healthy : ℕ → Registry → String → Option String → Registry
mark_healthy now r name model =
    let provider = normalize_provider name in
    if is_denied provider
    then r
    else (let r₁ = put_healthy_model r provider (named model) in
        let r₂ = put_provider r₁ provider (healthy_entry provider none) in
        record_cb_success now (save (put_gate r₂ none)) provider)

-- `_provider_models`: the models whose entries name the provider.
abbrev belongs_to : String → String × Entry → Bool
belongs_to canonical m = str_eq (normalize_provider (or_else m.1.provider "")) canonical

unfoldable pub provider_models : Registry → String → List String
provider_models r provider =
    keys (filter (belongs_to (normalize_provider provider)) r.health.models)

unfoldable pub failures_of : Option Entry → ℕ
failures_of none = 0
failures_of (some e) = e.failures

-- The stored text is turned into a `datetime` before it is handed to `calculate`.
abbrev pub parse_until : Option Stamp → CurrentUntil
parse_until none = absent
parse_until (some (at t)) = datetime t
parse_until (some malformed) = absent

unfoldable pub current_until : Option Entry → CurrentUntil
current_until none = absent
current_until (some e) = parse_until e.until

abbrev pub stamp_of : Option ℕ → Option Stamp
stamp_of none = none
stamp_of (some t) = some (at t)

abbrev pub status_of : Result → Status
status_of result = if result.permanent then disabled else cooldown

-- The entry written for a model, and the one written for a provider.
unfoldable pub model_error_entry : ℕ → Result → String → String → Entry
model_error_entry now result provider model = record {
  status = some (status_of result);
  until = stamp_of result.until;
  reason = some result.type;
  failures = result.failures;
  backoff_applied = result.backoff_applied;
  provider = some provider;
  model = some model;
  models = [];
  updated_at = some (at now);
  last_probe_at = none;
}

unfoldable pub provider_error_entry : ℕ → Result → List String → Entry
provider_error_entry now result models = record {
  status = some (status_of result);
  until = stamp_of result.until;
  reason = some result.type;
  failures = result.failures;
  backoff_applied = result.backoff_applied;
  provider = none;
  model = none;
  models = models;
  updated_at = some (at now);
  last_probe_at = none;
}

unfoldable pub open_gate_from_error : ℕ → ℕ → Registry → ErrorInfo → String → Registry
open_gate_from_error now jitter r e provider =
    let result =
      calculate r.calculator now jitter e (failures_of (get_provider r provider)) absent in
    set_global_gate now r (append result.type (append " (" (append provider ")")))
      (stamp_of result.until)

unfoldable pub model_result : ℕ → ℕ → Registry → ErrorInfo → String → Result
model_result now jitter r e model =
    let current = get_model r model in
    calculate r.calculator now jitter e (failures_of current) (current_until current)

unfoldable pub provider_result : ℕ → ℕ → Registry → ErrorInfo → String → Result
provider_result now jitter r e provider =
    let current = get_provider r provider in
    calculate r.calculator now jitter e (failures_of current) (current_until current)

-- `error_info.get("model_specific") and model`
abbrev pub target_model : ErrorInfo → Option String → Option String
target_model e model = if e.model_specific then named model else none

abbrev pub mark_target : ℕ → ℕ → Registry → String → ErrorInfo → Option String → Registry
mark_target now jitter r provider e (some model) =
    record_cb_failure now
      (save (
        put_model r model
          (model_error_entry now (model_result now jitter r e model) provider model)))
      provider
mark_target now jitter r provider e none =
    if is_phantom_provider provider
    then r
    else record_cb_failure now
        (save (
          put_provider r provider (
            provider_error_entry now (provider_result now jitter r e provider)
              (provider_models r provider))))
        provider

unfoldable pub mark_error : ℕ → ℕ → Registry → String → ErrorInfo → Option String → Registry
mark_error now jitter r name e model =
    let provider = normalize_provider name in
    if is_denied provider
    then r
    else if e.global
    then open_gate_from_error now jitter r e provider
    else mark_target now jitter r provider e (target_model e model)

-- `force_healthy`: the entries are dropped before the success is recorded.
abbrev without_model : Registry → Option String → Registry
without_model r none = r
without_model r (some model) = record r {
  health = record r.health { models = remove r.health.models model };
}

unfoldable pub force_healthy : ℕ → Registry → String → Option String → Registry
force_healthy now r name model =
    let provider = normalize_provider name in
    let r₁ = without_model r (named model) in
    let r₂ = record r₁ {
      health = record r₁.health { providers = remove r₁.health.providers provider };
    } in
    mark_healthy now r₂ provider model
