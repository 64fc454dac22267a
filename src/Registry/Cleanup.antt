-- ===== src/Registry/Cleanup.antt =====
-- health_registry.py: `cleanup_expired`, which ends the cooldowns that are over and drops what is left over.
use Prim.Native.String.{◌++◌ as append}
use provider_health_daemon.Base.{
  ℕ, zero, suc, ◌+◌, ◌-◌, max, String, Bool, true, false, ◌&&◌, ◌||◌, Option, none, some, List, [],
  ◌∷◌, ltb, leb, if◌then◌else◌, or_else, elem, drop_suffix,
}
use provider_health_daemon.Base.Dict.{Dict}
use provider_health_daemon.Clock.{Stamp, at, malformed, minutes, hours}
use provider_health_daemon.Cooldown.{rate_limit_types, is_expired}
use provider_health_daemon.Registry.{
  Registry, Health, Entry, Status, healthy, cooldown, probing, disabled, save,
}
pub mod Sweep
pub mod Limits
pub mod Gaps

abbrev pub max_failures : ℕ
max_failures = 30

abbrev pub prober_interval_minutes : ℕ
prober_interval_minutes = 5

abbrev pub probing_window : ℕ
probing_window = minutes (max (prober_interval_minutes + prober_interval_minutes) 10)

-- `_base_error_type`
unfoldable pub base_error_type : Option String → String
base_error_type reason =
    let r = or_else reason "" in
    elim (drop_suffix " (max_failures)" r) [
      | some base ↦ base
      | none ↦ elim (drop_suffix " (probing)" r) [ some base ↦ base | none ↦ r ]
    ]

abbrev pub is_status : Status → Option Status → Bool
is_status healthy (some healthy) = true
is_status cooldown (some cooldown) = true
is_status probing (some probing) = true
is_status disabled (some disabled) = true
is_status _ _ = false

abbrev pub has_no_until : Option Stamp → Bool
has_no_until none = true
has_no_until (some _) = false

-- `_garbage_entry`
unfoldable pub is_garbage : Entry → Bool
is_garbage e =
    has_no_until e.until
    && (if is_status healthy e.status || is_status disabled e.status then false else true)

-- A fresh window in which the prober tests the entry again.
unfoldable pub rotate : ℕ → String → Entry → Entry
rotate now base e = record e {
  status = some probing;
  reason = some (append base " (probing)");
  until = some (at (now + probing_window));
  updated_at = some (at now);
}

unfoldable pub lock : String → Entry → Entry
lock base e = record e {
  status = some disabled;
  reason = some (append base " (max_failures)");
  until = none;
}

-- A cooldown that is over.
unfoldable pub promote : ℕ → Entry → Entry
promote now e =
    let base = base_error_type e.reason in
    if leb max_failures e.failures
    then if elem base rate_limit_types then rotate now base e else lock base e
    else rotate now base e

-- What the sweep does with an entry: it stays, it is replaced and counted, it is deleted as garbage
-- and not counted, or it is deleted as an orphan and counted.
pub data Fate : Type 0 where
  kept : Fate
  replaced : Entry → Fate
  garbage : Fate
  orphaned : Fate

unfoldable pub fate : ℕ → Entry → Fate
fate now e =
    if is_garbage e
    then garbage
    else if is_status cooldown e.status && is_expired now e.until
    then replaced (promote now e)
    else if is_status probing e.status && is_expired now e.until
    then orphaned
    else kept

-- The dictionary that is left, the count, and whether an exception ended the loop.
pub record Swept : Type 0 where
  pub entries : Dict Entry
  pub count : ℕ
  pub raised : Bool

abbrev pub is_malformed : Option Stamp → Bool
is_malformed (some malformed) = true
is_malformed _ = false

-- One round for a provider. The log line about an orphan parses the entry's text again, after the
-- deletion, and raises if it is malformed: the rest of the dictionary is then not swept.
abbrev pub orphan_round : Bool → Dict Entry → Swept → Swept
orphan_round true d rest = record { entries = d; count = 0; raised = true }
orphan_round false d rest = record rest { count = rest.count + 1 }

abbrev pub provider_round : String → Entry → Dict Entry → Swept → Fate → Swept
provider_round k e d rest kept = record rest { entries = (k, e) ∷ rest.entries }
provider_round k e d rest (replaced e') = record rest {
  entries = (k, e') ∷ rest.entries;
  count = rest.count + 1;
}
provider_round k e d rest garbage = rest
provider_round k e d rest orphaned = orphan_round (is_malformed e.until) d rest

unfoldable pub sweep_providers : ℕ → Dict Entry → Swept
sweep_providers now [] = record { entries = []; count = 0; raised = false }
sweep_providers now ((k, e) ∷ d) = provider_round k e d (sweep_providers now d) (fate now e)

abbrev pub model_round : String → Entry → Swept → Fate → Swept
model_round k e rest kept = record rest { entries = (k, e) ∷ rest.entries }
model_round k e rest (replaced e') = record rest {
  entries = (k, e') ∷ rest.entries;
  count = rest.count + 1;
}
model_round k e rest garbage = rest
model_round k e rest orphaned = record rest { count = rest.count + 1 }

unfoldable pub sweep_models : ℕ → Dict Entry → Swept
sweep_models now [] = record { entries = []; count = 0; raised = false }
sweep_models now ((k, e) ∷ d) = model_round k e (sweep_models now d) (fate now e)

abbrev put_swept : Registry → Dict Entry → Dict Entry → Registry
put_swept r providers models = record r {
  health = record r.health { providers = providers; models = models };
}

abbrev finish : Registry → Swept → Swept → Registry × Option ℕ
finish r providers models =
    let r' = put_swept r providers.entries models.entries in
    let count = providers.count + models.count in (if ltb 0 count then save r' else r', some count)

-- The new registry, and the count; `none` is a `ValueError`. Nothing is saved where nothing was
-- counted.
unfoldable pub cleanup_expired : ℕ → Registry → Registry × Option ℕ
cleanup_expired now r =
    let providers = sweep_providers now r.health.providers in
    if providers.raised
    then (put_swept r providers.entries r.health.models, none)
    else finish r providers (sweep_models now r.health.models)
