-- ===== src/Registry/Loading.antt =====
-- health_registry.py: `_load`, which reads the health file and repairs what older versions wrote. The
-- file is one that holds the dictionaries that the program writes, with what it tolerates in them.
use Prim.Native.Nat.{Ordering}
use Prim.Native.String.{compare}
use provider_health_daemon.Base.{
  ℕ, String, Bool, true, false, Option, none, some, List, [], ◌∷◌, ◌++◌, if◌then◌else◌, elem, ltb,
  max, or_else, not, filter, before, map, is_some,
}
use provider_health_daemon.Base.Dict.{Dict, get, put}
use provider_health_daemon.Aliases.{normalize_provider, is_denied}
use provider_health_daemon.Clock.{Stamp, at, malformed}
use provider_health_daemon.Cooldown.{rate_limit_types, request_scoped_types}
use provider_health_daemon.Registry.{
  Health, Entry, Status, healthy, cooldown, probing, disabled, Account, Gate, Breaker, BreakerState,
  closed, opened, half_open, empty_state,
}
use provider_health_daemon.Registry.GlobalGate.{migrate_global_gate}
use provider_health_daemon.Registry.Cleanup.{base_error_type, is_status, rotate}
pub mod Repairs

-- A value of a breaker in the file: of its type, one that the code does not
-- take for it (a negative number too), or missing.
pub data Stored {ℓ} (A : Type ℓ) : Type ℓ where
  good : A → Stored A
  wrong : Stored A
  missing : Stored A

-- A state that is no text is `other`.
pub record StoredBreaker : Type 0 where
  pub state : Option BreakerState
  pub failures : Stored (List ℕ)
  pub successes : Stored ℕ
  pub last_failure : Option ℕ
  pub last_state_change : Option Stamp
  pub half_open_requests : Stored ℕ
  pub recent_429s : Option (List ℕ)

-- The breakers are `none` where the file has no dictionary.
pub record StoredHealth : Type 0 where
  pub providers : Dict Entry
  pub models : Dict Entry
  pub accounts : Dict (List Account)
  pub circuit_breakers : Dict (Option StoredBreaker)
  pub global_gate : Option Gate

-- `unreadable` is a file that cannot be read or parsed.
pub data HealthFile : Type 0 where
  absent unreadable : HealthFile
  holding : StoredHealth → HealthFile

abbrev pub rank_of : Option Status → ℕ
rank_of (some disabled) = 3
rank_of (some cooldown) = 2
rank_of (some probing) = 1
rank_of _ = 0

-- A text goes in front of the first that is greater, unless it is there.
unfoldable pub insert_text : String → List String → List String
insert_text s [] = s ∷ []
insert_text s (t ∷ ts) =
    let rest = insert_text s ts in
    elim (compare s t) [ Ordering.lt ↦ s ∷ t ∷ ts | Ordering.eq ↦ t ∷ ts | Ordering.gt ↦ t ∷ rest ]

-- `sorted(set(...))`
unfoldable pub sorted_set : List String → List String
unfolding insert_text
sorted_set [] = []
sorted_set (s ∷ ss) = insert_text s (sorted_set ss)

-- Texts that the program wrote compare as their instants; one that does not parse is taken as no
-- earlier than another.
abbrev pub is_earlier : Stamp → Stamp → Bool
is_earlier (at a) (at b) = ltb a b
is_earlier _ _ = false

unfoldable pub earlier_of : Option Stamp → Option Stamp → Option Stamp
earlier_of mine none = mine
earlier_of none (some b) = some b
earlier_of (some m) (some b) = if is_earlier b m then some b else some m

-- The worse of the two is kept, with the models of both.
unfoldable pub merge_into : Entry → Entry → Entry
unfolding sorted_set earlier_of
merge_into a b =
    let models = sorted_set (a.models ++ b.models) in
    record a {
      failures = max a.failures b.failures;
      models = models;
      updated_at = earlier_of a.updated_at b.updated_at;
    }

unfoldable pub merge_entries : Entry → Entry → Entry
unfolding merge_into
merge_entries a b =
    if ltb (rank_of a.status) (rank_of b.status) then merge_into b a else merge_into a b

unfoldable pub merge_found : Option Entry → Entry → Entry
merge_found none entry = entry
merge_found (some existing) entry = merge_entries existing entry

unfoldable pub merge_keys : Dict Entry → Dict Entry → Dict Entry
unfolding merge_found
merge_keys merged [] = merged
merge_keys merged ((raw, entry) ∷ rest) =
    let canonical = normalize_provider raw in
    merge_keys (put merged canonical (merge_found (get merged canonical) entry)) rest

-- `_migrate_duplicate_keys`
unfoldable pub migrate_duplicate_keys : Dict Entry → Dict Entry
unfolding merge_keys
migrate_duplicate_keys = merge_keys []

-- A disabled entry whose cause passes by itself is put to the test again.
unfoldable pub repair : ℕ → Entry → Entry
repair now e =
    let base = base_error_type e.reason in
    if is_status disabled e.status
    then if elem base (rate_limit_types ++ request_scoped_types) then rotate now base e else e
    else e

-- `_migrate_disabled_rate_limits` on one of the two dictionaries
unfoldable pub migrate_disabled_rate_limits : ℕ → Dict Entry → Dict Entry
unfolding repair
migrate_disabled_rate_limits now = map (λ e. (e.0, repair now e.1))

abbrev pub stored_or {ℓ} : {A : Type ℓ} → A → Stored A → A
stored_or d (good a) = a
stored_or d wrong = d
stored_or d missing = d

-- The state of the breaker that was stored decides what is kept of it.
unfoldable pub normalize_breaker : ℕ → Breaker → BreakerState → Breaker
normalize_breaker now cb half_open = record cb { successes = 0; half_open_requests = 0 }
normalize_breaker now cb closed = cb
normalize_breaker now cb opened = cb
normalize_breaker now cb _ = record cb {
  state = closed;
  failures = [];
  successes = 0;
  half_open_requests = 0;
  last_state_change = at now;
}

unfoldable pub migrate_breaker : ℕ → Option StoredBreaker → Breaker
unfolding normalize_breaker
migrate_breaker now none = record {
  state = closed;
  failures = [];
  successes = 0;
  last_failure = none;
  last_state_change = at now;
  half_open_requests = 0;
  recent_429s = [];
}
migrate_breaker now (some s) =
    let state = or_else s.state closed in
    normalize_breaker now
      (record {
        state = state;
        failures = stored_or [] s.failures;
        successes = stored_or 0 s.successes;
        last_failure = s.last_failure;
        last_state_change = or_else s.last_state_change (at now);
        half_open_requests = stored_or 0 s.half_open_requests;
        recent_429s = or_else s.recent_429s [];
      })
      state

unfoldable pub migrate_circuit_breakers : ℕ → Dict (Option StoredBreaker) → Dict Breaker
unfolding migrate_breaker
migrate_circuit_breakers now = map (λ e. (e.0, migrate_breaker now e.1))

-- The entries whose keys are not denied.
unfoldable pub purge {ℓ} : {V : Type ℓ} → (String → Bool) → Dict V → Dict V
purge denied [] = []
purge denied ((k, v) ∷ d) = let rest = purge denied d in if denied k then rest else (k, v) ∷ rest

abbrev pub denied_model : String → Bool
denied_model m = is_denied (before b'/' m)

unfoldable pub load : ℕ → HealthFile → Health
unfolding migrate_duplicate_keys migrate_disabled_rate_limits migrate_circuit_breakers purge
load now absent = empty_state
load now unreadable = empty_state
load now (holding s) = record {
  providers =
      purge is_denied (migrate_disabled_rate_limits now (migrate_duplicate_keys s.providers));
  models = purge denied_model (migrate_disabled_rate_limits now s.models);
  accounts = purge is_denied s.accounts;
  circuit_breakers = migrate_circuit_breakers now s.circuit_breakers;
  global_gate = migrate_global_gate now s.global_gate;
}
