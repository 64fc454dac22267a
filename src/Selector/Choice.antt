-- ===== src/Selector/Choice.antt =====
-- meta_router.py: the smooth weighted round-robin, and the methods that choose a router or record
-- how a request went.
use provider_health_daemon.Base.{
  ℕ, suc, String, Bool, Option, none, some, List, [], ◌∷◌, if◌then◌else◌, filter, elem, leb, ltb,
  str_eq, length, not, ◌&&◌, sum_by,
}
use provider_health_daemon.Base.Dict.{Dict, get, put}
use provider_health_daemon.Base.Int.{ℤ, pos, ◌+ℤ◌, ◌-ℤ◌, ltb_ℤ}
use provider_health_daemon.Routers.{RouterState, mark_unhealthy}
use provider_health_daemon.ModelIds.{register_catalog, to_canonical, to_router_specific}
use provider_health_daemon.Policy.{DataSensitivity}
use provider_health_daemon.Selector.{
  Selector, Counters, service_unavailable, Result, ok, raise, count_of, touch, weight_of,
  identity_catalog, eligible_routers,
}

-- The router with the larger current weight, the earlier one if they are equal.
unfoldable pub better : Dict ℤ → Option RouterState → RouterState → RouterState
unfolding weight_of
better ws none r = r
better ws (some best) r = if ltb_ℤ (weight_of ws best.name) (weight_of ws r.name) then r else best

unfoldable pub gain : Dict ℤ → RouterState → Dict ℤ
unfolding weight_of
gain ws r = put ws r.name (weight_of ws r.name +ℤ pos r.weight)

unfoldable pub pick_loop :
    Dict ℤ → Option RouterState → List RouterState → Dict ℤ × Option RouterState
unfolding better gain
pick_loop ws best [] = (ws, best)
pick_loop ws best (r ∷ rs) = pick_loop (gain ws r) (some (better (gain ws r) best r)) rs

unfoldable pub pay : ℕ → Dict ℤ × Option RouterState → Dict ℤ × Option RouterState
unfolding weight_of
pay total (ws, none) = (ws, none)
pay total (ws, some best) = (put ws best.name (weight_of ws best.name -ℤ pos total), some best)

unfoldable pub pick_weighted : Dict ℤ → List RouterState → Dict ℤ × Option RouterState
unfolding pick_loop pay
pick_weighted ws rs = pay (sum_by (λ r. r.weight) rs) (pick_loop ws none rs)

unfoldable pub without : List String → List RouterState → List RouterState
without excluded rs = filter (λ r. not (elem r.name excluded)) rs

unfoldable pub touch_all : Counters → List RouterState → Counters
touch_all d [] = d
touch_all d (r ∷ rs) = touch_all (touch d r.name) rs

unfoldable pub is_flapping : Selector → RouterState → Bool
is_flapping s r = leb s.failure_threshold (count_of s.streaks r.name)

-- The routers that are not flapping, or all of them if that leaves none.
unfoldable pub steady : Selector → List RouterState → List RouterState
unfolding is_flapping
steady s rs =
    let flapping = filter (is_flapping s) rs in
    if ltb 0 (length flapping) && ltb (length flapping) (length rs)
    then filter (λ r. not (is_flapping s r)) rs
    else rs

unfoldable pub pick_in : Selector → List RouterState → Selector × Option RouterState
pick_in s rs =
    let picked = pick_weighted s.current_weights rs in
    (record s { current_weights = picked.0 }, picked.1)

unfoldable pub chosen : Selector × Option RouterState → Selector × Result RouterState
chosen (s, none) = (s, raise service_unavailable)
chosen (s, some r) = (s, ok r)

-- The second pick, over all that is eligible.
unfoldable pub last_resort : Selector × Result (List RouterState) → Selector × Result RouterState
unfolding pick_in chosen
last_resort (s, raise f) = (s, raise f)
last_resort (s, ok rs) = chosen (pick_in s rs)

module _ (policies : Dict Bool) (model : String) (sensitivity : DataSensitivity) where
  unfoldable pub choose : Selector × Option RouterState → Selector × Result RouterState
  unfolding last_resort
  choose (s, some r) = (s, ok r)
  choose (s, none) = last_resort (eligible_routers policies s model sensitivity)

  -- What `select_router` does with the eligible routers.
  unfoldable pub select_from :
      List String → Selector × Result (List RouterState) → Selector × Result RouterState
  unfolding without touch_all steady choose pick_in
  select_from excluded (s, raise f) = (s, raise f)
  select_from excluded (s, ok rs) =
      let left = without excluded rs in
      if ltb 0 (length excluded) && not (ltb 0 (length left))
      then (s, raise service_unavailable)
      else choose (pick_in (record s { streaks = touch_all s.streaks left }) (steady s left))

  unfoldable pub select_router : Selector → List String → Selector × Result RouterState
  unfolding select_from
  select_router s exclude = select_from exclude (eligible_routers policies s model sensitivity)

  unfoldable pub fallback_from :
      List String → Selector × Result (List RouterState) → Selector × Result RouterState
  unfolding without pick_in chosen
  fallback_from excluded (s, raise f) = (s, raise f)
  fallback_from excluded (s, ok rs) = chosen (pick_in s (without excluded rs))

  unfoldable pub fallback : Selector → List String → Selector × Result RouterState
  unfolding fallback_from
  fallback s exclude = fallback_from exclude (eligible_routers policies s model sensitivity)

  unfoldable pub on_failure : ℕ → Selector → String → Selector × Result RouterState
  unfolding fallback
  on_failure now s name =
      fallback
        (record s {
          failures = put s.failures name (suc (count_of s.failures name));
          streaks = put s.streaks name (suc (count_of s.streaks name));
          registry = mark_unhealthy now s.registry name;
        })
        (name ∷ [])

unfoldable pub on_success : Selector → String → Selector
on_success s name = record s {
  successes = put s.successes name (suc (count_of s.successes name));
  streaks = put s.streaks name 0;
}

unfoldable pub register_router : Selector → Option RouterState → Selector
unfolding identity_catalog
register_router s none = s
register_router s (some r) = record s {
  model_mapper = register_catalog s.model_mapper r.name (identity_catalog [] r.models);
}

unfoldable pub model_for_router : Selector → String → String → Selector × String
unfolding register_router
model_for_router s model name =
    let after = register_router s (get s.registry name) in
    if str_eq model ""
    then (s, model)
    else (after, to_router_specific after.model_mapper (to_canonical after.model_mapper model) name)
