-- ===== src/Tests/Routers.antt =====
-- The theorems on the routers and on the selector at concrete inputs.
use provider_health_daemon.Base.{
  ℕ, ◌+◌, ◌≡◌, if◌then◌else◌, str_eq, refl, true, false, none, some, List, [], ◌∷◌, arith, inl, ◌⊎◌,
  eq_iff, sum_by, elem, any, filter, drop_prefix, strip, lower,
}
use mathlib.Core.Option
use provider_health_daemon.Base.Dict.{get, put, put-Each}
use provider_health_daemon.Routers.Cooldowns.{
  Call, marked_healthy, marked_unhealthy, marked_probing, IsValid, EachIsValid, calls,
  router_calls-IsValid,
}
use provider_health_daemon.Base.Sorting.{sort, insert}
use provider_health_daemon.Routers.State.{
  save_state, load_state, survivor, new_registry-WellNamed, load_state-save_state,
}
use provider_health_daemon.ModelIds.{
  ModelIdMapper, new_mapper, register_catalog, router_key, to_canonical, to_router_specific,
  strip_any, strip_first,
}
use provider_health_daemon.ModelIds.Translation.{to_router_specific-elem}
use provider_health_daemon.Policy.{
  public, sensitive, classify_model_policy, kilo_policy, by_prefix, starts_with_any,
}
use provider_health_daemon.Selector.{
  weight_of, count_of, Selector, new_selector, ok, raise, policy_unavailable, policy_filter,
  is_public, eligible_after, eligible_routers,
}
use provider_health_daemon.Selector.Choice.{
  pick_loop, pay, better, gain, pick_weighted, select_router, fallback, without,
}
use provider_health_daemon.Base.Int.{◌+ℤ◌, ◌-ℤ◌, ltb_ℤ, pos}
use provider_health_daemon.Selector.Shares.{picks, is_pick}
use provider_health_daemon.Selector.Weights.{weights, Member}
use provider_health_daemon.Selector.Picks.{gained, pick_weighted_lem}
use provider_health_daemon.Selector.Selection.{Among, Steady, select_router-Among, select_router-ok}
use provider_health_daemon.Selector.Privacy.{select_router-refuses}
use provider_health_daemon.Clock.{seconds, days}
use provider_health_daemon.Routers.{
  RouterState, RouterConfig, Routers, healthy, cooldown, new_router, new_registry, register_all,
  update, mark_healthy, is_lightweight, probed_ok, success_of, is_healthy, precedes,
  get_healthy_routers,
}
use provider_health_daemon.Routers.Health.{failures_at, strikes_out, successes_at, probes_heal}

program : Unit {0}
unfolding new_router new_registry register_all get put update mark_healthy success_of probed_ok
    is_lightweight get_healthy_routers sort insert precedes is_healthy eligible_routers
    eligible_after policy_filter is_public filter without elem any classify_model_policy kilo_policy
    by_prefix starts_with_any drop_prefix strip lower to_canonical strip_any strip_first
    register_catalog router_key
program = tt

abbrev noon : ℕ
noon = days 739_000

abbrev nine : RouterConfig
nine = record {
  name = "9router";
  url = "http://localhost:20128";
  priority = none;
  weight = some 3;
  health_check_path = none;
  timeout = none;
  auth = none;
}

abbrev kiro : RouterConfig
kiro = record {
  name = "Kiro";
  url = "http://localhost:8000";
  priority = none;
  weight = none;
  health_check_path = some "/health";
  timeout = none;
  auth = none;
}

abbrev serving : RouterState
serving = record (new_router nine) { health_status = healthy }

abbrev serving_kiro : RouterState
serving_kiro = record (new_router kiro) { health_status = healthy }

strikes_out_example :
    (failures_at (noon ∷ (noon + seconds 30) ∷ (noon + seconds 60) ∷ []) serving).health_status
    ≡ cooldown
unfolding program
strikes_out_example =
    strikes_out (noon ∷ (noon + seconds 30) ∷ (noon + seconds 60) ∷ []) serving (omega arith)

probes_heal_example :
    (successes_at
      ((noon, "kr/auto" ∷ []) ∷ (noon + seconds 30, "kr/auto" ∷ []) ∷ [])
      (new_router nine)).health_status
    ≡ healthy
probes_heal_example =
    probes_heal (noon, "kr/auto" ∷ []) ((noon + seconds 30, "kr/auto" ∷ []) ∷ []) (new_router nine)
      (inl (omega arith))

abbrev fleet : Routers
fleet = new_registry (nine ∷ kiro ∷ [])

abbrev outage : List Call
outage =
    marked_unhealthy noon "Kiro"
    ∷ marked_unhealthy (noon + seconds 9) "Kiro"
    ∷ marked_probing "Kiro"
    ∷ marked_unhealthy (noon + seconds 20) "Kiro"
    ∷ marked_healthy (noon + seconds 30) "9router" ("kr/auto" ∷ [])
    ∷ []

new_router-IsValid : (cfg : RouterConfig) → IsValid (new_router cfg)
unfolding new_router
new_router-IsValid cfg = tt

empty-IsValid : EachIsValid []
unfolding get
empty-IsValid name r e = ground arith

fleet-IsValid : EachIsValid fleet
unfolding new_registry register_all
fleet-IsValid =
    put-Each IsValid (put [] "9router" (new_router nine)) "Kiro" (new_router kiro)
      (new_router-IsValid kiro)
      (put-Each IsValid [] "9router" (new_router nine) (new_router-IsValid nine) empty-IsValid)

router_calls-IsValid_example : EachIsValid (calls fleet outage)
router_calls-IsValid_example = router_calls-IsValid outage fleet fleet-IsValid

abbrev up : Routers
up =
    mark_healthy noon (mark_healthy noon fleet "Kiro" ("minimax-m2.5" ∷ [])) "9router"
      ("kr/auto" ∷ "kr/minimax-m2.5" ∷ [])

load_state-save_state_example :
    get (load_state (save_state fleet) fleet) "Kiro"
    ≡ Option.map
        (λ r. elim (get fleet "Kiro") [ none ↦ r | some o ↦ survivor o r ])
        (get fleet "Kiro")
load_state-save_state_example =
    load_state-save_state fleet fleet "Kiro" (new_registry-WellNamed (nine ∷ kiro ∷ []))
      (new_registry-WellNamed (nine ∷ kiro ∷ []))

abbrev two : List RouterState
two = new_router nine ∷ new_router kiro ∷ []

pick_weighted_lem_example :
    (b : RouterState) × ((pick_weighted [] two).1 ≡ some b)
    × Member b two
    × ((q : RouterState) → Member q two → ltb_ℤ (gained [] b) (gained [] q) ≡ false)
    × ((q : RouterState)
        → Member q two
        → weight_of (pick_weighted [] two).0 q.name ≡ (
            if str_eq b.name q.name
            then gained [] q -ℤ pos (sum_by (λ x. x.weight) two)
            else gained [] q))
    × (weights (pick_weighted [] two).0 two ≡ weights [] two)
unfolding program
pick_weighted_lem_example =
    pick_weighted_lem [] (new_router nine) (new_router kiro ∷ []) ((refl, tt), (tt, tt))

abbrev selector : Selector
selector = new_selector (("9router", serving) ∷ ("Kiro", serving_kiro) ∷ []) 3

-- Both routers are healthy and eligible, and the one that is not excluded is selected.
selected :
    ((select_router [] "" public selector ("9router" ∷ [])).1 ≡ ok serving_kiro)
    × ((select_router [] "" public selector []).1 ≡ ok serving)
unfolding program select_router pick_weighted count_of ltb_ℤ ◌+ℤ◌
selected = (refl, refl)

select_router-Among_example :
    Among
      (get_healthy_routers (("9router", serving) ∷ ("Kiro", serving_kiro) ∷ []))
      ("9router" ∷ [])
      (select_router [] "" public selector ("9router" ∷ [])).1
select_router-Among_example = select_router-Among [] "" public ("9router" ∷ []) selector

abbrev running : Selector
running = new_selector (("9router", serving) ∷ []) 3

select_router-ok_example :
    (b : RouterState) × ((select_router [] "" public running ("Kiro" ∷ [])).1 ≡ ok b)
    × Member b (without ("Kiro" ∷ []) (serving ∷ []))
    × Steady running (without ("Kiro" ∷ []) (serving ∷ [])) b
unfolding program
select_router-ok_example =
    select_router-ok [] "" public ("Kiro" ∷ []) running running (serving ∷ []) refl (omega arith)

select_router-refuses_example :
    ((select_router [] "nvidia/llama" sensitive running []).1 ≡ raise policy_unavailable)
    × ((fallback [] "nvidia/llama" sensitive running []).1 ≡ raise policy_unavailable)
unfolding program
select_router-refuses_example =
    select_router-refuses [] running "nvidia/llama" sensitive []
      (ground (arith, eq_iff "nvidia/llama" "")) (ground arith) refl

abbrev mapper : ModelIdMapper
mapper = register_catalog new_mapper "9router" (("kr/minimax-m2.5", "kr/minimax-m2.5") ∷ [])

to_router_specific-elem_example :
    (elem (to_router_specific mapper "minimax-m2.5" "9router") ("kr/minimax-m2.5" ∷ []) ≡ true)
    × ((to_router_specific mapper "minimax-m2.5" "9router" ≡ "minimax-m2.5")
        ⊎ (to_canonical mapper (to_router_specific mapper "minimax-m2.5" "9router")
            ≡ "minimax-m2.5"))
unfolding program
to_router_specific-elem_example =
    to_router_specific-elem mapper "minimax-m2.5" "kr/minimax-m2.5" "9router"
      ("kr/minimax-m2.5" ∷ []) refl (ground (arith, eq_iff "minimax-m2.5" "")) refl refl refl refl

-- Of four picks, the router of weight 3 has three.
test_shares :
    (picks 4 [] (new_router nine ∷ new_router kiro ∷ []) "9router" ≡ 3)
    × (picks 4 [] (new_router nine ∷ new_router kiro ∷ []) "Kiro" ≡ 1)
unfolding program picks is_pick pick_weighted pick_loop pay better gain weight_of ltb_ℤ ◌+ℤ◌ ◌-ℤ◌
    get put sum_by
test_shares = (refl, refl)
