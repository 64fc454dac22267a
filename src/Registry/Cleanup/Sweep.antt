-- ===== src/Registry/Cleanup/Sweep.antt =====
-- `cleanup_expired` settles a registry in one pass, and where it does not finish or does not save.
use provider_health_daemon.Base.{
  ℕ, ◌+◌, ◌≤◌, ◌<◌, String, Bool, true, false, some, [], ◌∷◌, ◌≡◌, refl, arith, if◌then◌else◌, leb,
  elem,
}
use provider_health_daemon.Base.Dict.{Dict}
use provider_health_daemon.Clock.{year_1970, year_2101}
use provider_health_daemon.Cooldown.{is_expired, rate_limit_types}
use provider_health_daemon.Registry.{Registry, Entry, save}
use provider_health_daemon.Registry.Cleanup.{
  base_error_type, is_garbage, rotate, lock, promote, max_failures, probing_window, Fate, kept,
  replaced, garbage, orphaned, fate, Swept, sweep_providers, sweep_models, cleanup_expired,
  orphan_round, provider_round, model_round, is_malformed,
}

-- The present lies in the years that the code takes for real, with room for a probing window.
abbrev pub IsPresent : ℕ → Type 0
IsPresent now = (year_1970 ≤ now) × (now + probing_window < year_2101)

fate-rotate :
    (now : ℕ) (base : String) (e : Entry) → IsPresent now → fate now (rotate now base e) ≡ kept
unfolding fate rotate is_garbage is_expired
fate-rotate now base e p = ground arith

fate-lock : (now : ℕ) (base : String) (e : Entry) → fate now (lock base e) ≡ kept
unfolding fate lock is_garbage
fate-lock now base e = refl

fate-if :
    (now : ℕ) (b : Bool) (x y : Entry)
    → fate now x ≡ kept
    → fate now y ≡ kept
    → fate now (if b then x else y) ≡ kept
fate-if now true x y h k = h
fate-if now false x y h k = k

fate-promote : (now : ℕ) (e : Entry) → IsPresent now → fate now (promote now e) ≡ kept
unfolding promote
fate-promote now e p =
    let rotated = fate-rotate now (base_error_type e.reason) e p in
    fate-if now (leb max_failures e.failures) _ _
      (fate-if now (elem (base_error_type e.reason) rate_limit_types) _ _ rotated
        (fate-lock now (base_error_type e.reason) e))
      rotated

replaced-promote : (now : ℕ) (e e' : Entry) → fate now e ≡ replaced e' → promote now e ≡ e'
unfolding fate
replaced-promote now e e' h = ground arith

fate-replaced :
    (now : ℕ) (e e' : Entry) → IsPresent now → fate now e ≡ replaced e' → fate now e' ≡ kept
fate-replaced now e e' p h = rw (← replaced-promote now e e' h) (fate-promote now e p)

-- A dictionary that a sweep leaves as it is.
abbrev pub Settled : (Dict Entry → Swept) → Dict Entry → Type 0
Settled sweep d = sweep d ≡ record { entries = d; count = 0; raised = false }

orphan-Settled :
    (now : ℕ) (b : Bool) (d : Dict Entry) (rest : Swept)
    → (rest.raised ≡ false → Settled (sweep_providers now) rest.entries)
    → (orphan_round b d rest).raised ≡ false
    → Settled (sweep_providers now) (orphan_round b d rest).entries
orphan-Settled now true d rest ih ok = cc
orphan-Settled now false d rest ih ok = ih ok

round-Settled :
    (now : ℕ) (k : String) (e : Entry) (d : Dict Entry) (rest : Swept) (f : Fate)
    → IsPresent now
    → fate now e ≡ f
    → (rest.raised ≡ false → Settled (sweep_providers now) rest.entries)
    → (provider_round k e d rest f).raised ≡ false
    → Settled (sweep_providers now) (provider_round k e d rest f).entries
unfolding sweep_providers
round-Settled now k e d rest kept p h ih ok = rw (ih ok, h) refl
round-Settled now k e d rest (replaced e') p h ih ok = rw (ih ok, fate-replaced now e e' p h) refl
round-Settled now k e d rest garbage p h ih ok = ih ok
round-Settled now k e d rest orphaned p h ih ok =
    orphan-Settled now (is_malformed e.until) d rest ih ok

sweep_providers-Settled :
    (now : ℕ) (d : Dict Entry)
    → IsPresent now
    → (sweep_providers now d).raised ≡ false
    → Settled (sweep_providers now) (sweep_providers now d).entries
unfolding sweep_providers
sweep_providers-Settled now [] p ok = refl
sweep_providers-Settled now ((k, e) ∷ d) p ok =
    round-Settled now k e d (sweep_providers now d) (fate now e) p refl
      (sweep_providers-Settled now d p) ok

model_round-Settled :
    (now : ℕ) (k : String) (e : Entry) (rest : Swept) (f : Fate)
    → IsPresent now
    → fate now e ≡ f
    → Settled (sweep_models now) rest.entries
    → Settled (sweep_models now) (model_round k e rest f).entries
unfolding sweep_models
model_round-Settled now k e rest kept p h ih = rw (ih, h) refl
model_round-Settled now k e rest (replaced e') p h ih = rw (ih, fate-replaced now e e' p h) refl
model_round-Settled now k e rest garbage p h ih = ih
model_round-Settled now k e rest orphaned p h ih = ih

sweep_models-Settled :
    (now : ℕ) (d : Dict Entry)
    → IsPresent now
    → Settled (sweep_models now) (sweep_models now d).entries
unfolding sweep_models
sweep_models-Settled now [] p = refl
sweep_models-Settled now ((k, e) ∷ d) p =
    model_round-Settled now k e (sweep_models now d) (fate now e) p refl
      (sweep_models-Settled now d p)

-- The registry after a cleanup.
abbrev pub cleaned : ℕ → Registry → Registry
cleaned now r = (cleanup_expired now r).0

raised-of :
    (now : ℕ) (r : Registry) (n : ℕ)
    → (cleanup_expired now r).1 ≡ some n
    → (sweep_providers now r.health.providers).raised ≡ false
unfolding cleanup_expired
raised-of now r n h = ground arith

-- The entries after a cleanup that returned.
cleaned_entries :
    (now : ℕ) (r : Registry)
    → (sweep_providers now r.health.providers).raised ≡ false
    → ((cleaned now r).health.providers ≡ (sweep_providers now r.health.providers).entries)
      × ((cleaned now r).health.models ≡ (sweep_models now r.health.models).entries)
unfolding cleanup_expired save
cleaned_entries now r h = ground arith

cleanup-Settled :
    (now : ℕ) (r : Registry)
    → Settled (sweep_providers now) r.health.providers
    → Settled (sweep_models now) r.health.models
    → cleanup_expired now r ≡ (r, some 0)
unfolding cleanup_expired
cleanup-Settled now r hp hm = rw (hp, hm) refl

-- A cleanup that returns, at an instant of the years 1970 to 2100, leaves nothing to do: a second one
-- at the same instant counts nothing and changes nothing.
pub cleanup_expired_idem :
    (now n : ℕ) (r : Registry)
    → IsPresent now
    → (cleanup_expired now r).1 ≡ some n
    → cleanup_expired now (cleaned now r) ≡ (cleaned now r, some 0)
cleanup_expired_idem now n r p h =
    let ok = raised-of now r n h in
    let (providers, models) = cleaned_entries now r ok in
    cleanup-Settled now (cleaned now r)
      (rw providers (sweep_providers-Settled now r.health.providers p ok))
      (rw models (sweep_models-Settled now r.health.models p))
