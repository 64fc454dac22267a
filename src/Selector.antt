-- ===== src/Selector.antt =====
-- meta_router.py: the choice of a downstream router for a request. Each method runs under the
-- selector's lock. A request without a model has the model "".
use provider_health_daemon.Base.{
  ℕ, suc, ◌+◌, String, Bool, true, false, Option, none, some, List, [], ◌∷◌, map, if◌then◌else◌,
  filter, any, elem, leb, ltb, str_eq, not, ◌&&◌, ◌||◌, or_else, sum_by, drop_prefix, is_some,
  before, length, ◌==◌,
}
use Prim.Native.Char.{code}
pub mod Choice
pub mod Weights
pub mod Shares
pub mod Picks
pub mod Eligible
pub mod Selection
pub mod Privacy
use provider_health_daemon.Base.Dict.{Dict, get, put, values}
use provider_health_daemon.Base.Int.{ℤ, pos, ◌+ℤ◌, ◌-ℤ◌, ltb_ℤ}
use provider_health_daemon.Routers.{RouterState, Routers, get_healthy_routers, mark_unhealthy}
use provider_health_daemon.ModelIds.{
  ModelIdMapper, new_mapper, register_catalog, to_canonical, to_router_specific,
}
use provider_health_daemon.Policy.{
  DataSensitivity, public, internal, sensitive, classify_model_policy, allowed,
}
use Prim.Native.String.{◌++◌ as append}

-- `ServiceUnavailable` and its subclass `PolicyUnavailable`.
pub data Failure : Type 0 where
  service_unavailable policy_unavailable : Failure

pub data Result {ℓ} (A : Type ℓ) : Type ℓ where
  ok : A → Result A
  raise : Failure → Result A

abbrev pub Counters : Type 0
Counters = Dict ℕ

-- `registry` is the shared `RouterRegistry`.
pub record Selector : Type 0 where
  pub registry : Routers
  pub failure_threshold : ℕ
  pub current_weights : Dict ℤ
  pub successes : Counters
  pub failures : Counters
  pub streaks : Counters
  pub model_mapper : ModelIdMapper

abbrev pub new_selector : Routers → ℕ → Selector
new_selector registry threshold = record {
  registry = registry;
  failure_threshold = threshold;
  current_weights = [];
  successes = [];
  failures = [];
  streaks = [];
  model_mapper = new_mapper;
}

-- `d[k]` of a `defaultdict(int)`: the value, and the entry that reading a missing key makes.
unfoldable pub count_of : Counters → String → ℕ
count_of d k = or_else (get d k) 0

unfoldable pub touch : Counters → String → Counters
touch d k = elim (get d k) [ none ↦ put d k 0 | some n ↦ d ]

unfoldable pub weight_of : Dict ℤ → String → ℤ
weight_of ws name = or_else (get ws name) (pos 0)

-- `{m: m for m in router.models}`
unfoldable pub identity_catalog : Dict String → List String → Dict String
identity_catalog d [] = d
identity_catalog d (m ∷ ms) = identity_catalog (put d m m) ms

unfoldable pub register_catalogs : ModelIdMapper → List RouterState → ModelIdMapper
unfolding identity_catalog
register_catalogs m [] = m
register_catalogs m (r ∷ rs) =
    register_catalogs (register_catalog m r.name (identity_catalog [] r.models)) rs

-- `rest` of `s.partition("/")`, nothing if there is no separator.
unfoldable pub after_slash : String → Option String
after_slash String.[] = none
after_slash (String.◌∷◌ c s) = let rest = after_slash s in if code c == 47 then some s else rest

-- Some model of the router has this canonical id.
unfoldable pub has_canonical : ModelIdMapper → String → RouterState → Bool
has_canonical m canonical r = any (λ id. str_eq (to_canonical m id) canonical) r.models

-- Some model of the router has the provider's prefix, or is the bare name.
unfoldable pub in_family : String → String → Bool
unfolding after_slash
in_family canonical id =
    let provider = before 47 canonical in
    (not (str_eq provider "") && is_some (drop_prefix (append provider "/") id))
    || elim (after_slash canonical) [ none ↦ false | some rest ↦ str_eq id rest ]

unfoldable pub serves_family : String → RouterState → Bool
unfolding in_family
serves_family canonical r = any (in_family canonical) r.models

unfoldable pub is_servable : ModelIdMapper → List RouterState → String → Bool
unfolding has_canonical serves_family
is_servable m healthy model =
    let canonical = to_canonical m model in
    any (λ r. has_canonical m canonical r || serves_family canonical r) healthy

unfoldable pub servable_models : Selector → List String → Selector × List String
unfolding is_servable
servable_models s models =
    let healthy = get_healthy_routers s.registry in
    let mapper = register_catalogs s.model_mapper healthy in
    elim healthy [
      | [] ↦ (s, [])
      | r ∷ rs ↦ (record s { model_mapper = mapper }, filter (is_servable mapper (r ∷ rs)) models)
    ]

unfoldable pub nonempty_or : Failure → List RouterState → Result (List RouterState)
nonempty_or f [] = raise f
nonempty_or f (r ∷ rs) = ok (r ∷ rs)

unfoldable pub is_public : DataSensitivity → Bool
is_public public = true
is_public _ = false

-- The routers that the data policy leaves; the empty model has no policy.
unfoldable pub policy_filter :
    Dict Bool → String → DataSensitivity → List RouterState → Result (List RouterState)
unfolding nonempty_or is_public
policy_filter policies model sensitivity healthy =
    if str_eq model "" || is_public sensitivity
    then ok healthy
    else nonempty_or policy_unavailable
        (filter (λ r. allowed (classify_model_policy policies model) sensitivity) healthy)

unfoldable pub is_kiro_with : Option String → RouterState → Bool
is_kiro_with none r = false
is_kiro_with (some bare) r = str_eq r.name "Kiro" && elem bare r.models

-- `if found: return found`, and what comes next otherwise.
unfoldable pub or_next : List RouterState → Result (List RouterState) → Result (List RouterState)
or_next [] next = next
or_next (r ∷ rs) next = ok (r ∷ rs)

-- The Kiro gateway for its namespace, else the routers that have the model, else those of its family.
unfoldable pub by_model :
    ModelIdMapper → String → String → List RouterState → Result (List RouterState)
unfolding has_canonical serves_family is_kiro_with nonempty_or or_next
by_model m canonical model healthy =
    or_next (filter (is_kiro_with (drop_prefix "kr/" model)) healthy) (
      or_next (filter (has_canonical m canonical) healthy)
        (nonempty_or service_unavailable (filter (serves_family canonical) healthy)))

-- What `_eligible_routers` does once the policy has been applied.
unfoldable pub eligible_after :
    Selector → String → Result (List RouterState) → Selector × Result (List RouterState)
unfolding by_model register_catalogs
eligible_after s model (raise f) = (s, raise f)
eligible_after s model (ok []) = (s, raise service_unavailable)
eligible_after s model (ok (r ∷ rs)) =
    let canonical = to_canonical s.model_mapper model in
    let mapper = register_catalogs s.model_mapper (r ∷ rs) in
    if str_eq model ""
    then (s, ok (r ∷ rs))
    else (record s { model_mapper = mapper }, by_model mapper canonical model (r ∷ rs))

unfoldable pub eligible_routers :
    Dict Bool → Selector → String → DataSensitivity → Selector × Result (List RouterState)
unfolding policy_filter eligible_after
eligible_routers policies s model sensitivity =
    eligible_after s model
      (policy_filter policies model sensitivity (get_healthy_routers s.registry))
