-- ===== src/Registry/Cleanup/Limits.antt =====
-- A rate limit never locks a provider: whatever count it was written with, the sweep sends its entry
-- back to probing when the cooldown is over.
use Prim.Native.String.{◌++◌ as append}
use provider_health_daemon.Base.{
  ℕ, String, Bool, true, false, some, List, [], ◌∷◌, ◌≡◌, refl, ◌∙◌, ap, arith, str_eq, eq_iff,
  elem, all, if◌then◌else◌, Bool-cases, inl, inr, and_left, and_right, drop_suffix,
  drop_suffix-append, if_same, leb, ◌⊎◌,
}
use provider_health_daemon.Cooldown.{
  Calculator, ErrorInfo, Result, CurrentUntil, rate_limit_types, error_type, is_rate_limit,
  max_failures_type, calculate, is_expired,
}
use provider_health_daemon.Cooldown.Permanence.{calculate-permanent, calculate-until-none}
use provider_health_daemon.Registry.{Entry, cooldown}
use provider_health_daemon.Registry.Errors.{provider_error_entry, stamp_of, status_of}
use provider_health_daemon.Registry.Cleanup.{
  base_error_type, is_garbage, rotate, lock, promote, max_failures, replaced, fate, is_status,
  has_no_until,
}

all-elem :
    (p : String → Bool) (s : String) (ts : List String)
    → all p ts ≡ true
    → elem s ts ≡ true
    → p s ≡ true
unfolding all elem
all-elem p s [] h m = ground arith
all-elem p s (t ∷ ts) h m = elim (Bool-cases (str_eq s t)) [
  | inl e ↦ rw ((eq_iff s t).0 e) (and_left (p t) (all p ts) h)
  | inr e ↦ all-elem p s ts (and_right (p t) (all p ts) h) (ground arith)
]

base_error_type-marked : (t : String) → base_error_type (some (append t " (max_failures)")) ≡ t
unfolding base_error_type
base_error_type-marked t = rw (base_error_type, drop_suffix-append t " (max_failures)") refl

is_base : String → Bool
is_base t = str_eq (base_error_type (some t)) t

rate_limits-base : all is_base rate_limit_types ≡ true
unfolding all is_base base_error_type drop_suffix
rate_limits-base = refl

base_error_type-plain : (t : String) → elem t rate_limit_types ≡ true → base_error_type (some t) ≡ t
unfolding is_base
base_error_type-plain t h = (eq_iff _ t).0 (all-elem is_base t rate_limit_types rate_limits-base h)

promote-rotate :
    (t : ℕ) (base : String) (entry : Entry)
    → base_error_type entry.reason ≡ base
    → elem base rate_limit_types ≡ true
    → promote t entry ≡ rotate t base entry
unfolding promote
promote-rotate t base entry same limit =
    ap
      (λ b.
        if leb max_failures entry.failures
        then if elem b rate_limit_types then rotate t b entry else lock b entry
        else rotate t b entry)
      same
    ∙ rw limit (if_same (leb max_failures entry.failures) (rotate t base entry))

fate-promote :
    (t : ℕ) (entry : Entry)
    → is_status cooldown entry.status ≡ true
    → has_no_until entry.until ≡ false
    → is_expired t entry.until ≡ true
    → fate t entry ≡ replaced (promote t entry)
unfolding fate is_garbage
fate-promote t entry status until over = ground arith

status-cooldown :
    (result : Result)
    → result.permanent ≡ false
    → is_status cooldown (some (status_of result)) ≡ true
status-cooldown result h = ground arith

module _ (calc : Calculator) (now jitter : ℕ) (e : ErrorInfo) (failures : ℕ)
    (current : CurrentUntil) where
  type-cases :
      ((calculate calc now jitter e failures current).type ≡ error_type e)
      ⊎ ((calculate calc now jitter e failures current).type ≡ max_failures_type e)
  unfolding calculate
  type-cases = ground arith

  -- The type that a rate limit is recorded with strips to the error's own type.
  base-calculate :
      is_rate_limit e ≡ true
      → base_error_type (some (calculate calc now jitter e failures current).type) ≡ error_type e
  base-calculate h = elim type-cases [
    | inl plain ↦ rw plain (base_error_type-plain (error_type e) (unfold is_rate_limit in h))
    | inr marked ↦ rw marked (base_error_type-marked (error_type e))
  ]

  temporary :
      is_rate_limit e ≡ true
      → e.permanent ≡ false
      → (calculate calc now jitter e failures current).permanent ≡ false
  temporary h p = ground (arith, calculate-permanent calc now jitter e failures current)

  has_until :
      (calculate calc now jitter e failures current).permanent ≡ false
      → has_no_until (stamp_of (calculate calc now jitter e failures current).until) ≡ false
  has_until p = ground (arith, calculate-until-none calc now jitter e failures current)

  -- A rate limit that is not permanent never locks the provider: once its cooldown is over, the sweep
  -- sends the entry to probing, whatever number of failures it was written with.
  pub rate_limit-rotates :
      (t : ℕ) (models : List String)
      → is_rate_limit e ≡ true
      → e.permanent ≡ false
      → is_expired t (stamp_of (calculate calc now jitter e failures current).until) ≡ true
      → fate t (provider_error_entry now (calculate calc now jitter e failures current) models)
        ≡ replaced (
            rotate t
              (error_type e)
              (provider_error_entry now (calculate calc now jitter e failures current) models))
  unfolding provider_error_entry
  rate_limit-rotates t models h p over =
      let result = calculate calc now jitter e failures current in
      let entry = provider_error_entry now result models in
      fate-promote t entry (status-cooldown result (temporary h p)) (has_until (temporary h p)) over
      ∙ ap replaced
          (promote-rotate t (error_type e) entry (base-calculate h) (unfold is_rate_limit in h))
