-- ===== src/Registry/GlobalGate.antt =====
-- health_registry.py: the global gate, which stops every model of the gateway.
use provider_health_daemon.Base.{
  ℕ, String, Bool, false, Option, none, some, ltb, leb, if◌then◌else◌, ◌≡◌, arith, is_some,
}
use provider_health_daemon.Clock.{Stamp, at, malformed}
use provider_health_daemon.Registry.{Registry, Gate, save}

abbrev pub put_gate : Registry → Option Gate → Registry
put_gate r gate = record r { health = record r.health { global_gate = gate } }

unfoldable pub set_global_gate : ℕ → Registry → String → Option Stamp → Registry
set_global_gate now r reason none = r
set_global_gate now r reason (some until) =
    save (
      put_gate r
        (some (record { reason = reason; until = some until; updated_at = some (at now) })))

unfoldable pub clear_global_gate : Registry → Registry
clear_global_gate r = elim r.health.global_gate [ none ↦ r | some _ ↦ save (put_gate r none) ]

-- `_migrate_global_gate`: a gate that is over, endless or malformed is dropped.
unfoldable pub migrate_global_gate : ℕ → Option Gate → Option Gate
migrate_global_gate now none = none
migrate_global_gate now (some gate) = elim gate.until [
  | none ↦ none
  | some until ↦ elim until [ at t ↦ if leb t now then none else some gate | malformed ↦ none ]
]

unfoldable pub get_global_gate : ℕ → Registry → Option Gate
get_global_gate now r = migrate_global_gate now r.health.global_gate

abbrev gate_holds : ℕ → Option Stamp → Bool
gate_holds now none = false
gate_holds now (some (at t)) = ltb now t
gate_holds now (some malformed) = false

unfoldable pub is_global_gated : ℕ → Registry → Bool
is_global_gated now r = elim r.health.global_gate [
  | none ↦ false
  | some gate ↦ gate_holds now gate.until
]

-- The gate is closed to requests exactly if `get_global_gate` still reports it.
pub is_global_gated-get_global_gate :
    (now : ℕ) (r : Registry) → is_global_gated now r ≡ is_some (get_global_gate now r)
unfolding is_global_gated get_global_gate migrate_global_gate
is_global_gated-get_global_gate now r = ground arith

-- A gate set until an instant holds before that instant and at no later time.
pub is_global_gated-set :
    (set now t : ℕ) (r : Registry) (reason : String)
    → is_global_gated now (set_global_gate set r reason (some (at t))) ≡ ltb now t
unfolding is_global_gated set_global_gate save
is_global_gated-set set now t r reason = ground arith
