-- ===== src/Routers.antt =====
-- router_registry.py: the downstream routers, their health with its hysteresis, and the order in which
-- the healthy ones are offered. Each method runs under the registry's lock at one instant.
use provider_health_daemon.Base.{
  ℕ, suc, ◌+◌, ◌-◌, ◌*◌, ◌^◌, min, String, Bool, true, false, Option, none, some, List, [], ◌∷◌,
  if◌then◌else◌, filter, ltb, leb, ◌==◌, ◌&&◌, ◌||◌, elem, or_else,
}
use provider_health_daemon.Base.Sorting.{sort}
use provider_health_daemon.Base.Dict.{Dict, get, put, values}
use provider_health_daemon.Clock.{seconds}
pub mod Health
pub mod Cooldowns
pub mod Order
pub mod Catalog
pub mod State

pub data HealthStatus : Type 0 where
  unknown probing healthy cooldown : HealthStatus

pub record RouterState : Type 0 where
  pub name : String
  pub url : String
  pub priority : ℕ
  pub weight : ℕ
  pub health_status : HealthStatus
  pub models : List String
  pub last_success : Option ℕ
  pub last_failure : Option ℕ
  pub cooldown_until : Option ℕ
  pub consecutive_probes_ok : ℕ
  pub failure_count : ℕ
  pub auth : Option String
  pub health_check_path : String
  pub timeout : ℕ

-- An entry of the configuration; `none` stands for a missing key.
pub record RouterConfig : Type 0 where
  pub name : String
  pub url : String
  pub priority : Option ℕ
  pub weight : Option ℕ
  pub health_check_path : Option String
  pub timeout : Option ℕ
  pub auth : Option String

abbrev pub Routers : Type 0
Routers = Dict RouterState

abbrev pub router_unhealthy_strikes : ℕ
router_unhealthy_strikes = 3

abbrev pub router_backoff_cap : ℕ
router_backoff_cap = 3600

unfoldable pub new_router : RouterConfig → RouterState
new_router cfg = record {
  name = cfg.name;
  url = cfg.url;
  priority = or_else cfg.priority 1;
  weight = or_else cfg.weight 1;
  health_status = unknown;
  models = [];
  last_success = none;
  last_failure = none;
  cooldown_until = none;
  consecutive_probes_ok = 0;
  failure_count = 0;
  auth = cfg.auth;
  health_check_path = or_else cfg.health_check_path "/v1/models";
  timeout = or_else cfg.timeout (seconds 2);
}

unfoldable pub register_all : Routers → List RouterConfig → Routers
unfolding new_router
register_all rs [] = rs
register_all rs (cfg ∷ cfgs) = register_all (put rs cfg.name (new_router cfg)) cfgs

-- `RouterRegistry(routers_config)`
unfoldable pub new_registry : List RouterConfig → Routers
new_registry = register_all []

-- What every method that changes one router does: nothing if no router has the name.
unfoldable pub update : Routers → String → (RouterState → RouterState) → Routers
update rs name f = elim (get rs name) [ none ↦ rs | some r ↦ put rs name (f r) ]

unfoldable pub is_healthy : RouterState → Bool
is_healthy r = elim r.health_status [ healthy ↦ true | _ ↦ false ]

-- The sort key `(r.priority, -r.weight)`: the key of the first is less than that of the second.
unfoldable pub precedes : RouterState → RouterState → Bool
precedes r q = ltb r.priority q.priority || (r.priority == q.priority && ltb q.weight r.weight)

unfoldable pub get_healthy_routers : Routers → List RouterState
get_healthy_routers rs = sort precedes (filter is_healthy (values rs))

abbrev pub lightweight_paths : List String
lightweight_paths = "/health" ∷ "/v1/health" ∷ "/api/health" ∷ []

unfoldable pub is_lightweight : RouterState → Bool
is_lightweight r = elem r.health_check_path lightweight_paths

-- The new status and the count of good probes in a row, by the status before the probe.
unfoldable pub probed_ok : Bool → HealthStatus → ℕ → HealthStatus × ℕ
probed_ok light healthy n = (healthy, 0)
probed_ok light probing n = if leb 2 (suc n) then (healthy, 0) else (probing, suc n)
probed_ok light unknown n = if light then (healthy, 0) else (probing, 1)
probed_ok light cooldown n = if light then (healthy, 0) else (probing, 1)

unfoldable pub success_of : ℕ → List String → RouterState → RouterState
success_of now models r =
    let after = probed_ok (is_lightweight r) r.health_status r.consecutive_probes_ok in
    record r {
      models = models;
      last_success = some now;
      cooldown_until = none;
      failure_count = 0;
      health_status = after.0;
      consecutive_probes_ok = after.1;
    }

unfoldable pub mark_healthy : ℕ → Routers → String → List String → Routers
unfolding update
mark_healthy now rs name models = update rs name (success_of now models)

-- The seconds of cooldown after so many failures, which are at least the strikes.
unfoldable pub router_backoff : ℕ → ℕ
router_backoff count = min (60 * 2 ^ (min count 10 - router_unhealthy_strikes)) router_backoff_cap

unfoldable pub failure_of : ℕ → RouterState → RouterState
failure_of now r =
    let count = suc r.failure_count in
    if ltb count router_unhealthy_strikes
    then record r {
      failure_count = count;
      last_failure = some now;
      cooldown_until = if is_healthy r then none else r.cooldown_until;
    }
    else record r {
      failure_count = count;
      last_failure = some now;
      health_status = cooldown;
      cooldown_until = some (now + seconds (router_backoff count));
    }

unfoldable pub mark_unhealthy : ℕ → Routers → String → Routers
unfolding update
mark_unhealthy now rs name = update rs name (failure_of now)

unfoldable pub mark_probing : Routers → String → Routers
unfolding update
mark_probing rs name = update rs name (λ r. record r { health_status = probing })

unfoldable pub refresh_models_from_router : Routers → String → List String → Routers
unfolding update
refresh_models_from_router rs name models = update rs name (λ r. record r { models = models })
