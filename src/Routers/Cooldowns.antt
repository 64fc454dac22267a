-- ===== src/Routers/Cooldowns.antt =====
-- router_registry.py: how long a router's cooldown lasts, through every method.
use native.Mathlib.Nat.{one-le-pow}
use provider_health_daemon.Base.{
  ℕ, suc, ◌+◌, ◌-◌, ◌≤◌, ◌<◌, min, String, Bool, true, false, Option, none, some, List,
  if◌then◌else◌, arith, ltb, Bool-cases, Option-cases, inl, inr, [], ◌∷◌,
}
use provider_health_daemon.Base.Dict.{get, Each, put-Each}
use provider_health_daemon.Clock.{seconds}
use provider_health_daemon.Routers.{
  Routers, RouterState, failure_of, success_of, mark_healthy, mark_unhealthy, mark_probing,
  is_healthy, refresh_models_from_router, update, router_backoff, is_healthy,
}

-- A cooldown was set by a third or later failure in a row, at the last failure, for one minute at least and one
-- hour at most.
abbrev Bounded : Option ℕ → Option ℕ → ℕ → Type 0
Bounded none f n = Unit
Bounded (some u) none n = ⊥
Bounded (some u) (some f) n = (3 ≤ n) × (f + seconds 60 ≤ u) × (u ≤ f + seconds 3600)

abbrev pub IsValid : RouterState → Type 0
IsValid r = Bounded r.cooldown_until r.last_failure r.failure_count

router_backoff_bounds : (n : ℕ) → (60 ≤ router_backoff n) × (router_backoff n ≤ 3600)
unfolding router_backoff
router_backoff_bounds n = ground (arith, one-le-pow (min n 10 - 3) 2 (omega arith))

success_of-IsValid :
    (now : ℕ) (models : List String) (r : RouterState) → IsValid (success_of now models r)
unfolding success_of
success_of-IsValid now models r = tt

-- Below the strikes there is no cooldown to keep.
kept :
    (b : Bool) (c f : Option ℕ) (n now : ℕ)
    → n < 2
    → Bounded c f n
    → Bounded (if b then none else c) (some now) (suc n)
kept true c f n now l h = tt
kept false none f n now l h = tt
kept false (some u) none n now l h = elim h [ ]
kept false (some u) (some t) n now l h = omega (arith, h.0, l)

failure_of-IsValid : (now : ℕ) (r : RouterState) → IsValid r → IsValid (failure_of now r)
unfolding failure_of
failure_of-IsValid now r h = elim (Bool-cases (ltb (suc r.failure_count) 3)) [
  | inl e ↦ rw e (
      kept (is_healthy r) r.cooldown_until r.last_failure r.failure_count now (ground (arith, e)) h)
  | inr e ↦ rw e (let bounds = router_backoff_bounds (suc r.failure_count) in ground arith)
]

-- Every registered router has the property.
abbrev pub EachIsValid : Routers → Type 0
EachIsValid = Each IsValid

update-IsValid :
    (rs : Routers) (name : String) (f : RouterState → RouterState)
    → ((r : RouterState) → IsValid r → IsValid (f r))
    → EachIsValid rs
    → EachIsValid (update rs name f)
unfolding update
update-IsValid rs name f hf h = elim (Option-cases (get rs name)) [
  | inl n ↦ rw (update, n) h
  | inr (s, n) ↦ rw (update, n) (put-Each IsValid rs name (f s) (hf s (h name s n)) h)
]

-- The methods that change a router's health or its models, at an instant.
pub data Call : Type 0 where
  marked_healthy : ℕ → String → List String → Call
  marked_unhealthy : ℕ → String → Call
  marked_probing : String → Call
  refreshed : String → List String → Call

unfoldable pub call : Routers → Call → Routers
call rs (marked_healthy now name models) = mark_healthy now rs name models
call rs (marked_unhealthy now name) = mark_unhealthy now rs name
call rs (marked_probing name) = mark_probing rs name
call rs (refreshed name models) = refresh_models_from_router rs name models

unfoldable pub calls : Routers → List Call → Routers
calls rs [] = rs
calls rs (c ∷ cs) = calls (call rs c) cs

call-IsValid : (rs : Routers) (c : Call) → EachIsValid rs → EachIsValid (call rs c)
unfolding call mark_healthy mark_unhealthy mark_probing refresh_models_from_router
call-IsValid rs (marked_healthy now name models) h =
    update-IsValid rs name _ (λ r v. success_of-IsValid now models r) h
call-IsValid rs (marked_unhealthy now name) h = update-IsValid rs name _ (failure_of-IsValid now) h
call-IsValid rs (marked_probing name) h = update-IsValid rs name _ (λ r v. v) h
call-IsValid rs (refreshed name models) h = update-IsValid rs name _ (λ r v. v) h

-- If every router with a cooldown has failed three times in a row or more and its cooldown ends at
-- least one minute and at most one hour after its last failure, then this still holds of every
-- router after any calls.
pub router_calls-IsValid :
    (cs : List Call) (rs : Routers) → EachIsValid rs → EachIsValid (calls rs cs)
unfolding calls
router_calls-IsValid [] rs h = h
router_calls-IsValid (c ∷ cs) rs h = router_calls-IsValid cs (call rs c) (call-IsValid rs c h)
