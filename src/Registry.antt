-- ===== src/Registry.antt =====
-- health_registry.py: the state of `HealthRegistry`, what `_save` does with it, and the read methods.
-- Each method runs under the registry's lock, so it is one function of the state at one instant.
use Prim.Native.Char.{code}
use provider_health_daemon.Base.{
  ℕ, ◌+◌, String, Bool, true, false, Option, none, some, List, [], ◌∷◌, if◌then◌else◌, before,
  filter, not,
}
use provider_health_daemon.Base.Dict.{Dict, get}
use provider_health_daemon.Aliases.{normalize_provider}
use provider_health_daemon.Clock.{Stamp, at, malformed}
use provider_health_daemon.Cooldown.{Calculator, is_expired}
pub mod Circuit
pub mod GlobalGate
pub mod Errors
pub mod Cleanup
pub mod Accounts
pub mod Probes
pub mod Loading

pub data Status : Type 0 where
  healthy cooldown probing disabled : Status
  other : String → Status

-- A health entry; `none` stands for a missing key and for `None`.
pub record Entry : Type 0 where
  pub status : Option Status
  pub until : Option Stamp
  pub reason : Option String
  pub failures : ℕ
  pub backoff_applied : Bool
  pub provider : Option String
  pub model : Option String
  pub models : List String
  pub updated_at : Option Stamp
  pub last_probe_at : Option Stamp

-- `opened` is the state "open".
pub data BreakerState : Type 0 where
  closed opened half_open : BreakerState
  other : String → BreakerState

-- `recent_429s` is the key "429s".
pub record Breaker : Type 0 where
  pub state : BreakerState
  pub failures : List ℕ
  pub successes : ℕ
  pub last_failure : Option ℕ
  pub last_state_change : Stamp
  pub half_open_requests : ℕ
  pub recent_429s : List ℕ

pub record Gate : Type 0 where
  pub reason : String
  pub until : Option Stamp
  pub updated_at : Option Stamp

-- A value of an account dictionary, and the account.
pub data Value : Type 0 where
  null : Value
  text : String → Value
  number : ℕ → Value
  mapping : List (String × String) → Value

abbrev pub Account : Type 0
Account = Dict Value

-- The dictionary `_data`, and the JSON that `_save` writes of it.
pub record Health : Type 0 where
  pub providers : Dict Entry
  pub models : Dict Entry
  pub accounts : Dict (List Account)
  pub circuit_breakers : Dict Breaker
  pub global_gate : Option Gate

-- `file` is what the health file holds, and `writable` tells whether a write of it succeeds.
pub record Registry : Type 0 where
  pub health : Health
  pub file : Option Health
  pub writable : Bool
  pub calculator : Calculator

abbrev pub empty_state : Health
empty_state = record {
  providers = [];
  models = [];
  accounts = [];
  circuit_breakers = [];
  global_gate = none;
}

-- `_save`: the new file replaces the old one whole, or the old one stays.
unfoldable pub save : Registry → Registry
save r = if r.writable then record r { file = some r.health } else r

unfoldable pub get_provider : Registry → String → Option Entry
get_provider r name = get r.health.providers (normalize_provider name)

unfoldable pub get_model : Registry → String → Option Entry
get_model r model_id = get r.health.models model_id

-- `_entry_is_healthy`: a probing entry is not available.
unfoldable pub entry_is_healthy : ℕ → Entry → Bool
entry_is_healthy now e = elim e.status [
  | none ↦ false
  | some s ↦ elim s [
    | healthy ↦ true
    | probing ↦ false
    | disabled ↦ false
    | cooldown ↦ is_expired now e.until
    | other _ ↦ false
  ]
]

-- `entry and not self._entry_is_healthy(entry)` is what makes a model unavailable.
unfoldable pub blocks : ℕ → Option Entry → Bool
blocks now none = false
blocks now (some e) = not (entry_is_healthy now e)

unfoldable pub is_model_available : ℕ → Registry → String → Bool
is_model_available now r model_id =
    if blocks now (get_model r model_id)
    then false
    else if blocks now (get_provider r (before b'/' model_id))
    then false
    else true

unfoldable pub get_available_models : ℕ → Registry → List String → List String
unfolding is_model_available filter
get_available_models now r = filter (is_model_available now r)
