-- ===== src/Cooldown/Permanence.antt =====
-- When a calculated cooldown is permanent, and what each branch counts.
use provider_health_daemon.Base.{ℕ, ◌+◌, ◌≡◌, ◌↔◌, true, none, arith, not, ◌&&◌, leb, if◌then◌else◌}
use provider_health_daemon.Cooldown.{
  Calculator, ErrorInfo, CurrentUntil, is_transport, is_rate_limit, is_request_scoped, calculate,
}

module _ (calc : Calculator) (now jitter : ℕ) (e : ErrorInfo) (failures : ℕ)
    (current : CurrentUntil) where
  -- A cooldown is permanent exactly if the error is no transport error and either the failure limit
  -- is reached by an error that is neither a rate limit nor scoped to its request, or the limit is
  -- not reached and the error itself is permanent.
  pub calculate-permanent : (calculate calc now jitter e failures current).permanent ≡ (
      not (is_transport e)
      && (if leb calc.max_failures (failures + 1)
          then not (is_rate_limit e) && not (is_request_scoped e)
          else e.permanent))
  unfolding calculate
  calculate-permanent = ground arith

  -- A cooldown has no end exactly if it is permanent.
  pub calculate-until-none :
      ((calculate calc now jitter e failures current).until ≡ none)
      ↔ ((calculate calc now jitter e failures current).permanent ≡ true)
  unfolding calculate
  calculate-until-none = ground arith
