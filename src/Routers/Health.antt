-- ===== src/Routers/Health.antt =====
-- router_registry.py: when a router leaves and enters the healthy ones.
use provider_health_daemon.Base.{
  ℕ, suc, ◌+◌, ◌≤◌, ◌<◌, String, Bool, true, false, List, [], ◌∷◌, ◌≡◌, refl, if◌then◌else◌, arith,
  length, ltb, leb, ◌⊎◌, inl, inr, ◌≢◌, ◌∙◌, Bool-cases,
}
use provider_health_daemon.Routers.{
  HealthStatus, RouterState, unknown, probing, healthy, cooldown, failure_of, success_of, probed_ok,
  is_lightweight,
}

-- The state after failures at these instants, in order, with no success among them.
unfoldable pub failures_at : List ℕ → RouterState → RouterState
failures_at [] r = r
failures_at (now ∷ later) r = failures_at later (failure_of now r)

failure_of_count : (t : ℕ) (r : RouterState) → (failure_of t r).failure_count ≡ suc r.failure_count
unfolding failure_of
failure_of_count t r = ground arith

failure_of_status :
    (t : ℕ) (r : RouterState)
    → (failure_of t r).health_status
      ≡ (if ltb (suc r.failure_count) 3 then r.health_status else cooldown)
unfolding failure_of
failure_of_status t r = ground arith

failures_at_status :
    (ts : List ℕ) (r : RouterState)
    → (r.failure_count < 3) ⊎ (r.health_status ≡ cooldown)
    → (failures_at ts r).health_status
      ≡ (if ltb (length ts + r.failure_count) 3 then r.health_status else cooldown)
unfolding failures_at
failures_at_status [] r h = ground arith
failures_at_status (t ∷ ts) r h =
    let ih = failures_at_status ts (failure_of t r) in
    let count = failure_of_count t r in let status = failure_of_status t r in ground arith

-- A router that has failed fewer than three times since its last success keeps its status through
-- further failures as long as all of them together are fewer than three, and is in cooldown after
-- those that make them three or more.
pub strikes_out :
    (ts : List ℕ) (r : RouterState)
    → r.failure_count < 3
    → (failures_at ts r).health_status
      ≡ (if ltb (length ts + r.failure_count) 3 then r.health_status else cooldown)
strikes_out ts r l = failures_at_status ts r (inl l)

-- The state after successful probes at these instants, each with its catalogue.
unfoldable pub successes_at : List (ℕ × List String) → RouterState → RouterState
successes_at [] r = r
successes_at ((now, models) ∷ later) r = successes_at later (success_of now models r)

abbrev Warm : HealthStatus → ℕ → Type 0
Warm s n = (s ≡ healthy) ⊎ ((s ≡ probing) × (1 ≤ n))

probed_ok-Warm :
    (light : Bool) (s : HealthStatus) (n : ℕ) → Warm (probed_ok light s n).0 (probed_ok light s n).1
unfolding probed_ok
probed_ok-Warm light healthy n = inl refl
probed_ok-Warm light probing n = elim (Bool-cases (leb 2 (suc n))) [
  | inl e ↦ rw e (inl refl)
  | inr e ↦ rw e (inr (refl, omega arith))
]
probed_ok-Warm true unknown n = inl refl
probed_ok-Warm false unknown n = inr (refl, omega arith)
probed_ok-Warm true cooldown n = inl refl
probed_ok-Warm false cooldown n = inr (refl, omega arith)

Warm-heals :
    (light : Bool) (s : HealthStatus) (n : ℕ) → Warm s n → (probed_ok light s n).0 ≡ healthy
unfolding probed_ok
Warm-heals light healthy n h = refl
Warm-heals light probing n h = ground arith
Warm-heals light unknown n h = ground arith
Warm-heals light cooldown n h = ground arith

light_heals :
    (light : Bool) (s : HealthStatus) (n : ℕ)
    → light ≡ true
    → s ≢ probing
    → (probed_ok light s n).0 ≡ healthy
unfolding probed_ok
light_heals light healthy n e h = refl
light_heals light probing n e h = ground arith
light_heals light unknown n e h = rw e refl
light_heals light cooldown n e h = rw e refl

success_of-status :
    (e : ℕ × List String) (r : RouterState)
    → (success_of e.0 e.1 r).health_status
      ≡ (probed_ok (is_lightweight r) r.health_status r.consecutive_probes_ok).0
unfolding success_of
success_of-status e r = refl

success_of-Warm :
    (e : ℕ × List String) (r : RouterState)
    → Warm (success_of e.0 e.1 r).health_status (success_of e.0 e.1 r).consecutive_probes_ok
unfolding success_of
success_of-Warm e r = probed_ok-Warm (is_lightweight r) r.health_status r.consecutive_probes_ok

-- The successes after a first one that ended healthy, or with another to come.
successes_at-healthy :
    (es : List (ℕ × List String)) (r : RouterState)
    → (r.health_status ≡ healthy) ⊎ ((1 ≤ length es) × Warm r.health_status r.consecutive_probes_ok)
    → (successes_at es r).health_status ≡ healthy
unfolding successes_at
successes_at-healthy [] r (inl h) = h
successes_at-healthy [] r (inr h) = ground arith
successes_at-healthy (e ∷ es) r (inl h) = successes_at-healthy es (success_of e.0 e.1 r) (
    inl (
      success_of-status e r
      ∙ Warm-heals (is_lightweight r) r.health_status r.consecutive_probes_ok (inl h)))
successes_at-healthy (e ∷ es) r (inr (l, h)) = successes_at-healthy es (success_of e.0 e.1 r) (
    inl (
      success_of-status e r
      ∙ Warm-heals (is_lightweight r) r.health_status r.consecutive_probes_ok h))

-- Whatever its status was, a router is healthy after two or more successful probes in a row, and a
-- router with a lightweight path that was not being probed is healthy from the first one on.
pub probes_heal :
    (e : ℕ × List String) (es : List (ℕ × List String)) (r : RouterState)
    → (1 ≤ length es) ⊎ ((is_lightweight r ≡ true) × (r.health_status ≢ probing))
    → (successes_at (e ∷ es) r).health_status ≡ healthy
unfolding successes_at
probes_heal e es r (inl l) =
    successes_at-healthy es (success_of e.0 e.1 r) (inr (l, success_of-Warm e r))
probes_heal e es r (inr (l, n)) = successes_at-healthy es (success_of e.0 e.1 r) (
    inl (
      success_of-status e r
      ∙ light_heals (is_lightweight r) r.health_status r.consecutive_probes_ok l n))
