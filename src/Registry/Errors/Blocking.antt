-- ===== src/Registry/Errors/Blocking.antt =====
-- Whom an error blocks, until when, and whom a success frees.
use provider_health_daemon.Base.{
  ℕ, ◌<◌, ◌≤◌, String, true, false, Option, none, some, ◌≡◌, refl, ◌∙◌, ap, arith, str_eq, if_same,
  before, List,
}
use provider_health_daemon.Base.Dict.{get, put, get-put_self}
use provider_health_daemon.Aliases.{normalize_provider, is_denied}
use provider_health_daemon.Clock.{year_1970, year_2101}
use provider_health_daemon.Cooldown.{ErrorInfo, Result, is_expired}
use provider_health_daemon.Cooldown.Permanence.{calculate-until-none}
use provider_health_daemon.Registry.{
  Registry, Entry, get_provider, get_model, blocks, entry_is_healthy, is_model_available,
}
use provider_health_daemon.Registry.GlobalGate.{is_global_gated}
use provider_health_daemon.Registry.Errors.{
  is_phantom_provider, healthy_entry, named, mark_healthy, provider_models, current_until,
  provider_error_entry, provider_result, target_model, mark_error,
}
use provider_health_daemon.Registry.Errors.Effects.{
  record-record_cb_success, health-save, mark_error-provider,
}

-- At the instant, a cooldown with this end is not over: it has none, or a later one that is no
-- extreme date.
abbrev pub IsHeld : ℕ → Option ℕ → Type 0
IsHeld t none = Unit
IsHeld t (some until) = (year_1970 ≤ until) × (until < year_2101) × (t < until)

entry_is_unhealthy :
    (t now : ℕ) (result : Result) (models : List String)
    → (result.until ≡ none → result.permanent ≡ true)
    → IsHeld t result.until
    → entry_is_healthy t (provider_error_entry now result models) ≡ false
unfolding entry_is_healthy provider_error_entry is_expired
entry_is_unhealthy t now result models endless held = ground (arith, endless)

blocks-unhealthy : (t : ℕ) (e : Entry) → entry_is_healthy t e ≡ false → blocks t (some e) ≡ true
unfolding blocks
blocks-unhealthy t e h = rw h refl

provider_result-endless :
    (now jitter : ℕ) (r : Registry) (e : ErrorInfo) (provider : String)
    → (provider_result now jitter r e provider).until ≡ none
    → (provider_result now jitter r e provider).permanent ≡ true
unfolding provider_result
provider_result-endless now jitter r e provider =
    (calculate-until-none r.calculator now jitter e _ (current_until (get_provider r provider))).0

module _ (now jitter t : ℕ) (r : Registry) (e : ErrorInfo) (name : String)
    (model : Option String) where
  -- An error that is neither global nor specific to the named model, of a provider that is neither
  -- denied nor a phantom, makes every model under the provider's name unavailable at every instant
  -- at which the new cooldown holds.
  pub mark_error-blocks :
      (model_id : String)
      → is_denied (normalize_provider name) ≡ false
      → e.global ≡ false
      → target_model e model ≡ none
      → is_phantom_provider (normalize_provider name) ≡ false
      → normalize_provider (before b'/' model_id) ≡ normalize_provider name
      → IsHeld t (provider_result now jitter r e (normalize_provider name)).until
      → is_model_available t (mark_error now jitter r name e model) model_id ≡ false
  unfolding is_model_available get_provider
  mark_error-blocks model_id d g none_named real same held =
      let p = normalize_provider name in
      let result = provider_result now jitter r e p in
      let entry = provider_error_entry now result (provider_models r p) in
      let found : get (mark_error now jitter r name e model).health.providers
            (normalize_provider (before b'/' model_id))
          ≡ some entry =
        rw (same, mark_error-provider now jitter r e name model d g none_named real)
          (get-put_self r.health.providers p entry) in
      let blocked = blocks-unhealthy t entry (
        entry_is_unhealthy t now result (provider_models r p)
          (provider_result-endless now jitter r e p) held) in
      rw (found, blocked)
        (if_same (blocks t (get_model (mark_error now jitter r name e model) model_id)) false)

healthy-healthy :
    (t : ℕ) (p : String) (m : Option String) → blocks t (some (healthy_entry p m)) ≡ false
unfolding blocks healthy_entry entry_is_healthy
healthy-healthy t p m = refl

module _ (now : ℕ) (r : Registry) (name m : String)
    (allowed : is_denied (normalize_provider name) ≡ false) (nonempty : str_eq m "" ≡ false) where
  mark_healthy_lem :
      ((mark_healthy now r name (some m)).health.providers
        ≡ put r.health.providers
            (normalize_provider name)
            (healthy_entry (normalize_provider name) none))
      × ((mark_healthy now r name (some m)).health.models
          ≡ put r.health.models m (healthy_entry (normalize_provider name) (some m)))
      × ((mark_healthy now r name (some m)).health.global_gate ≡ none)
  unfolding mark_healthy named
  mark_healthy_lem =
      rw (allowed, nonempty)
        (
          (record-record_cb_success now _ (normalize_provider name)).0
              ∙ ap (λ h. h.providers) (health-save _),
          (record-record_cb_success now _ (normalize_provider name)).1
              ∙ ap (λ h. h.models) (health-save _),
          (record-record_cb_success now _ (normalize_provider name)).2
              ∙ ap (λ h. h.global_gate) (health-save _),
        )

  -- A success of a named model, of a provider that is not denied and under whose name the model is,
  -- makes the model available at every instant, and lifts the global gate.
  pub mark_healthy-frees :
      (t : ℕ)
      → normalize_provider (before b'/' m) ≡ normalize_provider name
      → (is_model_available t (mark_healthy now r name (some m)) m ≡ true)
        × (is_global_gated t (mark_healthy now r name (some m)) ≡ false)
  unfolding is_model_available get_provider get_model is_global_gated
  mark_healthy-frees t same =
      let (providers, models, gate) = mark_healthy_lem in
      let p = normalize_provider name in
      (
        rw (models, get-put_self, healthy-healthy, same, providers, get-put_self, healthy-healthy)
            refl,
        rw gate refl,
      )
