-- ===== src/Registry/Circuit/Store.antt =====
-- The methods act on the breaker of one provider as the state machine does, and on nothing else.
use provider_health_daemon.Base.{
  ℕ, String, ◌≡◌, refl, Bool, true, false, ◌&&◌, not, Option, none, some, arith, str_eq,
  if◌then◌else◌, Bool-cases, inl, inr,
}
use provider_health_daemon.Base.Dict.{get, get-put}
use provider_health_daemon.Aliases.{normalize_provider, is_denied}
use provider_health_daemon.Aliases.Canonical.{normalize_provider_idem}
use provider_health_daemon.Registry.{Registry, Breaker, save}
use provider_health_daemon.Registry.Circuit.{
  new_breaker, put_cb, or_new, get_cb, failure_step, success_step, execute_step, release_step,
  rate_limit_step, record_cb_failure, record_cb_success, can_execute_cb, release_cb, record_cb_429,
}
use provider_health_daemon.Registry.Circuit.Machine.{fail, succeed, execute, release, step}

abbrev pub breaker : Registry → String → Option Breaker
breaker r provider = get r.health.circuit_breakers provider

abbrev pub or_fresh : ℕ → Option Breaker → Breaker
or_fresh now none = new_breaker now
or_fresh now (some cb) = cb

-- The breaker that a method finds, or makes.
abbrev pub found : ℕ → Registry → String → Breaker
found now r name = or_fresh now (breaker r (normalize_provider name))

breaker-save : (r : Registry) (q : String) → breaker (save r) q ≡ breaker r q
unfolding save
breaker-save r q = ground arith

breaker-put_cb :
    (r : Registry) (p q : String) (cb : Breaker)
    → breaker (put_cb r p cb) q ≡ (if str_eq p q then some cb else breaker r q)
breaker-put_cb r p q cb = get-put r.health.circuit_breakers p q cb

get_cb-canonical :
    (now : ℕ) (r : Registry) (name : String)
    → get_cb now r (normalize_provider name)
      ≡ or_new now r (normalize_provider name) (breaker r (normalize_provider name))
unfolding get_cb
get_cb-canonical now r name = rw (normalize_provider_idem name) refl

breaker-or_new :
    (now : ℕ) (r : Registry) (p q : String) (o : Option Breaker) (cb : Breaker)
    → breaker (put_cb (or_new now r p o).0 p cb) q ≡ (if str_eq p q then some cb else breaker r q)
breaker-or_new now r p q none cb = ground (
  arith,
  breaker-put_cb r p q (new_breaker now),
  breaker-put_cb (put_cb r p (new_breaker now)) p q cb,
)
breaker-or_new now r p q (some old) cb = breaker-put_cb r p q cb

or_new_found :
    (now : ℕ) (r : Registry) (p : String) (o : Option Breaker)
    → (or_new now r p o).1 ≡ or_fresh now o
or_new_found now r p none = refl
or_new_found now r p (some cb) = refl

-- To replace the breaker that was found, or made, by its image.
breaker-update :
    (now : ℕ) (r : Registry) (name q : String) (f : Breaker → Breaker)
    → breaker
        (put_cb
          (get_cb now r (normalize_provider name)).0
          (normalize_provider name)
          (f (get_cb now r (normalize_provider name)).1))
        q
      ≡ (if str_eq (normalize_provider name) q then some (f (found now r name)) else breaker r q)
breaker-update now r name q f =
    rw
      (
        get_cb-canonical now r name,
        or_new_found now r (normalize_provider name) (breaker r (normalize_provider name)),
      )
      (breaker-or_new now r (normalize_provider name) q (breaker r (normalize_provider name)) _)

breaker-save_if :
    (b : Bool) (r : Registry) (q : String) → breaker (if b then save r else r) q ≡ breaker r q
breaker-save_if true r q = breaker-save r q
breaker-save_if false r q = refl

-- The provider's breaker after an event, the others as they were; a denied provider has no breaker.
abbrev pub After : Registry → Registry → Bool → String → Breaker → Type 0
After r r' denied p cb =
    (q : String) → breaker r' q ≡ (if not denied && str_eq p q then some cb else breaker r q)

module _ (now : ℕ) (r : Registry) (name : String) where
  -- Recording a failure does to the provider's breaker what the machine's step does, starting from
  -- a new breaker if the provider had none, and leaves every other provider's breaker as it was; a
  -- denied provider's call changes no breaker.
  pub record_cb_failure-step :
      After r
        (record_cb_failure now r name)
        (is_denied (normalize_provider name))
        (normalize_provider name)
        (step (found now r name) (fail now))
  unfolding record_cb_failure step
  record_cb_failure-step q = elim (Bool-cases (is_denied (normalize_provider name))) [
    | inl e ↦ rw (record_cb_failure, e) refl
    | inr e ↦
        rw (record_cb_failure, e, breaker-save) (breaker-update now r name q (failure_step now))
  ]

  pub record_cb_success-step :
      After r
        (record_cb_success now r name)
        (is_denied (normalize_provider name))
        (normalize_provider name)
        (step (found now r name) (succeed now))
  unfolding record_cb_success step
  record_cb_success-step q = elim (Bool-cases (is_denied (normalize_provider name))) [
    | inl e ↦ rw (record_cb_success, e) refl
    | inr e ↦
        rw (record_cb_success, e, breaker-save) (breaker-update now r name q (success_step now))
  ]

  -- Asking for a request, to take a slot or not, does to the provider's breaker what the machine's
  -- step does, starting from a new breaker if the provider had none, and leaves every other
  -- provider's breaker as it was; a denied provider's call changes no breaker.
  pub can_execute_cb-step :
      (acquire : Bool)
      → After r
          (can_execute_cb now r name acquire).0
          (is_denied (normalize_provider name))
          (normalize_provider name)
          (step (found now r name) (execute now acquire))
  unfolding can_execute_cb step
  can_execute_cb-step acquire q = elim (Bool-cases (is_denied (normalize_provider name))) [
    | inl e ↦ rw (can_execute_cb, e) refl
    | inr e ↦
        rw (can_execute_cb, e, breaker-save_if)
          (breaker-update now r name q (λ cb. (execute_step now acquire cb).0))
  ]

  -- The answer is the one that the breaker's own step gives.
  pub can_execute_cb-answer :
      (acquire : Bool)
      → (can_execute_cb now r name acquire).1 ≡ (
          if is_denied (normalize_provider name)
          then true
          else (execute_step now acquire (found now r name)).2)
  unfolding can_execute_cb
  can_execute_cb-answer acquire = elim (Bool-cases (is_denied (normalize_provider name))) [
    | inl e ↦ rw e refl
    | inr e ↦
        rw
          (
            e,
            get_cb-canonical now r name,
            or_new_found now r (normalize_provider name) (breaker r (normalize_provider name)),
          )
          refl
  ]

  -- A denied provider's breaker is released too.
  pub release_cb-step :
      After r
        (release_cb now r name)
        false
        (normalize_provider name)
        (step (found now r name) release)
  unfolding release_cb step
  release_cb-step q =
      rw (release_cb, breaker-save_if) (breaker-update now r name q (λ cb. (release_step cb).0))

  pub record_cb_429-step :
      After r
        (record_cb_429 now r name)
        (is_denied (normalize_provider name))
        (normalize_provider name)
        (rate_limit_step now (found now r name))
  unfolding record_cb_429
  record_cb_429-step q = elim (Bool-cases (is_denied (normalize_provider name))) [
    | inl e ↦ rw (record_cb_429, e) refl
    | inr e ↦
        rw (record_cb_429, e, breaker-save) (breaker-update now r name q (rate_limit_step now))
  ]
