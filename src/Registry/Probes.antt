-- ===== src/Registry/Probes.antt =====
-- health_registry.py: when a disabled provider is probed again.
use provider_health_daemon.Base.{
  ℕ, ◌+◌, String, Bool, true, false, Option, none, some, ◌≡◌, refl, ap, ◌∙◌, leb, if◌then◌else◌,
}
use provider_health_daemon.Base.Dict.{get, get-put_self}
use provider_health_daemon.Aliases.{normalize_provider, is_denied}
use provider_health_daemon.Clock.{Stamp, at, malformed, hours}
use provider_health_daemon.Registry.{Registry, Entry, disabled, save}
use provider_health_daemon.Registry.Errors.{put_provider}
use provider_health_daemon.Registry.Errors.Effects.{health-save}

abbrev pub disabled_reprobe_interval : ℕ
disabled_reprobe_interval = hours 1

unfoldable pub is_disabled : Entry → Bool
is_disabled e = elim e.status [ none ↦ false | some s ↦ elim s [ disabled ↦ true | _ ↦ false ] ]

-- `entry.get("last_probe_at") or entry.get("updated_at")`
unfoldable pub last_look : Entry → Option Stamp
last_look e = elim e.last_probe_at [ none ↦ e.updated_at | some t ↦ some t ]

unfoldable pub is_old : ℕ → Option Stamp → Bool
is_old now none = true
is_old now (some malformed) = true
is_old now (some (at t)) = leb (t + disabled_reprobe_interval) now

unfoldable pub reprobe_disabled_due : ℕ → Entry → Bool
unfolding is_disabled last_look is_old
reprobe_disabled_due now e = if is_disabled e then is_old now (last_look e) else false

unfoldable pub probed : ℕ → Registry → String → Option Entry → Registry
unfolding is_disabled
probed now r provider none = r
probed now r provider (some e) =
    if is_disabled e
    then save (put_provider r provider (record e { last_probe_at = some (at now) }))
    else r

unfoldable pub record_disabled_probe : ℕ → Registry → String → Registry
unfolding probed
record_disabled_probe now r name =
    let provider = normalize_provider name in
    if is_denied provider then r else probed now r provider (get r.health.providers provider)

-- A disabled provider, not a denied one, that was just probed is due for a probe exactly from the interval on.
pub reprobe_disabled_due-record :
    (now later : ℕ) (r : Registry) (name : String) (e : Entry)
    → is_denied (normalize_provider name) ≡ false
    → get r.health.providers (normalize_provider name) ≡ some e
    → is_disabled e ≡ true
    → (after : Entry) × (get
          (record_disabled_probe now r name).health.providers
          (normalize_provider name)
        ≡ some after)
      × (reprobe_disabled_due later after ≡ leb (now + disabled_reprobe_interval) later)
unfolding record_disabled_probe probed reprobe_disabled_due is_old last_look is_disabled
reprobe_disabled_due-record now later r name e d g h = (
  record e { last_probe_at = some (at now) },
  rw (record_disabled_probe, d, g, probed, h)
      (ap (λ h. get h.providers (normalize_provider name)) (health-save _)
        ∙ get-put_self r.health.providers (normalize_provider name) _),
  rw h refl,
)
