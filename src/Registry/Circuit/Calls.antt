-- ===== src/Registry/Circuit/Calls.antt =====
-- Sequences of calls of the circuit breaker's methods, on any providers.
use provider_health_daemon.Base.{
  ℕ, String, ◌≡◌, refl, Bool, true, false, not, ◌&&◌, Option, none, some, List, [], ◌∷◌, arith,
  str_eq, if◌then◌else◌,
}
use provider_health_daemon.Aliases.{normalize_provider}
use provider_health_daemon.Registry.{Registry, Breaker}
use provider_health_daemon.Registry.Circuit.{
  rate_limit_step, record_cb_failure, record_cb_success, can_execute_cb, release_cb, record_cb_429,
}
use provider_health_daemon.Registry.Circuit.Machine.{
  fail, succeed, execute, release, IsValid, step-IsValid,
}
use provider_health_daemon.Registry.Circuit.Store.{
  breaker, found, or_fresh, After, record_cb_failure-step, record_cb_success-step,
  can_execute_cb-step, release_cb-step, record_cb_429-step,
}

pub data Call : Type 0 where
  failed : ℕ → String → Call
  succeeded : ℕ → String → Call
  asked : ℕ → String → Bool → Call
  released : ℕ → String → Call
  limited : ℕ → String → Call

unfoldable pub call : Registry → Call → Registry
call r (failed now name) = record_cb_failure now r name
call r (succeeded now name) = record_cb_success now r name
call r (asked now name acquire) = (can_execute_cb now r name acquire).0
call r (released now name) = release_cb now r name
call r (limited now name) = record_cb_429 now r name

unfoldable pub calls : Registry → List Call → Registry
calls r [] = r
calls r (c ∷ cs) = calls (call r c) cs

-- Every breaker of the registry is valid.
pub record BreakersAreValid (r : Registry) : Type 0 where
  pub at_provider : (q : String) (cb : Breaker) → breaker r q ≡ some cb → IsValid cb

fresh-IsValid :
    (now : ℕ) (o : Option Breaker)
    → ((cb : Breaker) → o ≡ some cb → IsValid cb)
    → IsValid (or_fresh now o)
fresh-IsValid now none h = omega arith
fresh-IsValid now (some cb) h = h cb refl

found-IsValid :
    (now : ℕ) (r : Registry) (name : String) → BreakersAreValid r → IsValid (found now r name)
found-IsValid now r name v =
    fresh-IsValid now (breaker r (normalize_provider name))
      (v.at_provider (normalize_provider name))

chosen-IsValid :
    (b : Bool) (cb cb' : Breaker) (o : Option Breaker)
    → IsValid cb
    → ((x : Breaker) → o ≡ some x → IsValid x)
    → (if b then some cb else o) ≡ some cb'
    → IsValid cb'
chosen-IsValid true cb cb' o new old h = let same : cb ≡ cb' = ground arith in rw (← same) new
chosen-IsValid false cb cb' o new old h = old cb' h

After-IsValid :
    (r r' : Registry) (denied : Bool) (p : String) (cb : Breaker)
    → BreakersAreValid r
    → IsValid cb
    → After r r' denied p cb
    → BreakersAreValid r'
After-IsValid r r' denied p cb v new after = record {
  at_provider = λ q cb' h.
      chosen-IsValid (not denied && str_eq p q) cb cb' (breaker r q) new (v.at_provider q)
        (rw (after q) at h);
}

rate_limit_step-IsValid : (now : ℕ) (cb : Breaker) → IsValid cb → IsValid (rate_limit_step now cb)
unfolding rate_limit_step
rate_limit_step-IsValid now cb v = record { requests = v.requests; counts = v.counts }

call-IsValid : (r : Registry) (c : Call) → BreakersAreValid r → BreakersAreValid (call r c)
unfolding call
call-IsValid r (failed now name) v =
    After-IsValid r _ _ _ _ v (step-IsValid _ (fail now) (found-IsValid now r name v))
      (record_cb_failure-step now r name)
call-IsValid r (succeeded now name) v =
    After-IsValid r _ _ _ _ v (step-IsValid _ (succeed now) (found-IsValid now r name v))
      (record_cb_success-step now r name)
call-IsValid r (asked now name acquire) v =
    After-IsValid r _ _ _ _ v (step-IsValid _ (execute now acquire) (found-IsValid now r name v))
      (can_execute_cb-step now r name acquire)
call-IsValid r (released now name) v =
    After-IsValid r _ false (normalize_provider name) _ v
      (step-IsValid _ release (found-IsValid now r name v)) (release_cb-step now r name)
call-IsValid r (limited now name) v =
    After-IsValid r _ _ _ _ v (rate_limit_step-IsValid now _ (found-IsValid now r name v))
      (record_cb_429-step now r name)

-- From a registry whose breakers are valid, any calls on any providers leave every breaker valid.
pub calls-IsValid :
    (r : Registry) (cs : List Call) → BreakersAreValid r → BreakersAreValid (calls r cs)
unfolding calls
calls-IsValid r [] v = v
calls-IsValid r (c ∷ cs) v = calls-IsValid (call r c) cs (call-IsValid r c v)
