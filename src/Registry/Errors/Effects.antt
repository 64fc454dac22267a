-- ===== src/Registry/Errors/Effects.antt =====
-- What `mark_error` and `mark_healthy` leave as it was, and whom they block or free.
use provider_health_daemon.Base.{
  ℕ, String, Bool, true, false, Option, none, some, ◌≡◌, ◌≢◌, refl, ◌∙◌, ap, arith, if◌then◌else◌,
  Bool-cases, inl, inr,
}
use provider_health_daemon.Base.Dict.{get, put, get-put_ne}
use provider_health_daemon.Aliases.{normalize_provider, is_denied}
use provider_health_daemon.Clock.{Stamp, at, malformed}
use provider_health_daemon.Cooldown.{ErrorInfo, absent, calculate}
use provider_health_daemon.Cooldown.Bounds.{calculate-datetime}
use provider_health_daemon.Registry.{Registry, Entry, save, get_provider, get_model}
use provider_health_daemon.Registry.Circuit.{get_cb, record_cb_failure, record_cb_success}
use provider_health_daemon.Registry.GlobalGate.{set_global_gate}
use provider_health_daemon.Registry.Errors.{
  put_provider, put_model, is_phantom_provider, provider_models, failures_of, parse_until,
  current_until, model_error_entry, provider_error_entry, open_gate_from_error, model_result,
  provider_result, target_model, mark_target, mark_error,
}

-- The breakers' methods touch neither the entries nor the gate.
pub record-record_cb_failure :
    (now : ℕ) (r : Registry) (name : String)
    → ((record_cb_failure now r name).health.providers ≡ r.health.providers)
      × ((record_cb_failure now r name).health.models ≡ r.health.models)
unfolding record_cb_failure get_cb save
record-record_cb_failure now r name = (ground arith, ground arith)

pub record-record_cb_success :
    (now : ℕ) (r : Registry) (name : String)
    → ((record_cb_success now r name).health.providers ≡ r.health.providers)
      × ((record_cb_success now r name).health.models ≡ r.health.models)
      × ((record_cb_success now r name).health.global_gate ≡ r.health.global_gate)
unfolding record_cb_success get_cb save
record-record_cb_success now r name = (ground arith, ground arith, ground arith)

pub health-save : (r : Registry) → (save r).health ≡ r.health
unfolding save
health-save r = ground arith

calculate-parse_until :
    (r : Registry) (now jitter : ℕ) (e : ErrorInfo) (failures : ℕ) (s : Option Stamp)
    → calculate r.calculator now jitter e failures (parse_until s)
      ≡ calculate r.calculator now jitter e failures absent
calculate-parse_until r now jitter e failures none = refl
calculate-parse_until r now jitter e failures (some (at t)) =
    calculate-datetime r.calculator now jitter e failures t
calculate-parse_until r now jitter e failures (some malformed) = refl

calculate-current_until :
    (r : Registry) (now jitter : ℕ) (e : ErrorInfo) (failures : ℕ) (o : Option Entry)
    → calculate r.calculator now jitter e failures (current_until o)
      ≡ calculate r.calculator now jitter e failures absent
unfolding current_until
calculate-current_until r now jitter e failures none = refl
calculate-current_until r now jitter e failures (some old) =
    calculate-parse_until r now jitter e failures old.until

health-set_global_gate :
    (now : ℕ) (r : Registry) (reason : String) (until : Option Stamp)
    → ((set_global_gate now r reason until).health.providers ≡ r.health.providers)
      × ((set_global_gate now r reason until).health.models ≡ r.health.models)
unfolding set_global_gate
health-set_global_gate now r reason none = (refl, refl)
health-set_global_gate now r reason (some until) =
    (ap (λ h. h.providers) (health-save _), ap (λ h. h.models) (health-save _))

-- The entries of one provider and of one model are the same in two registries.
abbrev pub SameAt : Registry → Registry → String → String → Type 0
SameAt r r' q m =
    (get r'.health.providers q ≡ get r.health.providers q)
    × (get r'.health.models m ≡ get r.health.models m)

SameAt-if :
    (b : Bool) (r r₁ r₂ : Registry) (q m : String)
    → SameAt r r₁ q m
    → SameAt r r₂ q m
    → SameAt r (if b then r₁ else r₂) q m
SameAt-if true r r₁ r₂ q m h k = h
SameAt-if false r r₁ r₂ q m h k = k

open_gate_same :
    (now jitter : ℕ) (r : Registry) (e : ErrorInfo) (p q m : String)
    → SameAt r (open_gate_from_error now jitter r e p) q m
unfolding open_gate_from_error
open_gate_same now jitter r e p q m = (
  ap (λ d. get d q) (health-set_global_gate now r _ _).0,
  ap (λ d. get d m) (health-set_global_gate now r _ _).1,
)

mark_target_ne :
    (now jitter : ℕ) (r : Registry) (p : String) (e : ErrorInfo) (target : Option String)
    (q m : String)
    → p ≢ q
    → target ≢ some m
    → SameAt r (mark_target now jitter r p e target) q m
mark_target_ne now jitter r p e (some model) q m hp hm =
    let (providers, models) =
      record-record_cb_failure now
        (save
          (put_model r model (model_error_entry now (model_result now jitter r e model) p model)))
        p in
    (
      rw (providers, health-save) refl,
      rw (models, health-save) (get-put_ne r.health.models _ (λ same. hm (ap some same))),
    )
mark_target_ne now jitter r p e none q m hp hm = elim (Bool-cases (is_phantom_provider p)) [
  | inl phantom ↦ rw phantom (refl, refl)
  | inr real ↦
      let (providers, models) =
        record-record_cb_failure now
          (save (
            put_provider r p
              (provider_error_entry now (provider_result now jitter r e p) (provider_models r p))))
          p in
      rw real (
        rw (providers, health-save) (get-put_ne r.health.providers _ hp),
        rw (models, health-save) refl,
      )
]

module _ (now jitter : ℕ) (r : Registry) (e : ErrorInfo) where
  -- A cooldown that runs is ignored: the new one is calculated as if there were none, for a provider
  -- and for a model.
  pub existing_cooldown_ignored :
      (provider model : String)
      → (provider_result now jitter r e provider
          ≡ calculate r.calculator now jitter e (failures_of (get_provider r provider)) absent)
        × (model_result now jitter r e model
            ≡ calculate r.calculator now jitter e (failures_of (get_model r model)) absent)
  unfolding provider_result model_result
  existing_cooldown_ignored provider model = (
    calculate-current_until r now jitter e _ (get_provider r provider),
    calculate-current_until r now jitter e _ (get_model r model),
  )

  module _ (name : String) (model : Option String) where
    pub mark_error-provider :
        is_denied (normalize_provider name) ≡ false
        → e.global ≡ false
        → target_model e model ≡ none
        → is_phantom_provider (normalize_provider name) ≡ false
        → (mark_error now jitter r name e model).health.providers
          ≡ put r.health.providers (normalize_provider name) (
              provider_error_entry now
                (provider_result now jitter r e (normalize_provider name))
                (provider_models r (normalize_provider name)))
    unfolding mark_error
    mark_error-provider d g t p =
        rw (mark_error, d, g, t, p)
          ((record-record_cb_failure now _ (normalize_provider name)).0
            ∙ ap (λ h. h.providers) (health-save _))

    -- An error of a provider leaves the entry of every other provider as it was, and the entry of
    -- every model but the one that the error is specific to.
    pub mark_error_ne :
        (q m : String)
        → normalize_provider name ≢ q
        → target_model e model ≢ some m
        → (get (mark_error now jitter r name e model).health.providers q ≡ get r.health.providers q)
          × (get (mark_error now jitter r name e model).health.models m ≡ get r.health.models m)
    unfolding mark_error
    mark_error_ne q m hp hm =
        SameAt-if (is_denied (normalize_provider name)) r r _ q m (refl, refl)
          (SameAt-if e.global r _ _ q m
            (open_gate_same now jitter r e (normalize_provider name) q m)
            (mark_target_ne now jitter r (normalize_provider name) e (target_model e model) q m hp
              hm))
