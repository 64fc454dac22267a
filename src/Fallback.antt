-- ===== src/Fallback.antt =====
-- proxy_handler.py: the model that a request falls back to. Each look at the catalog composes the pool, the
-- registry, the ranking of `SmartRouter`, the routers of the selector and the data policy.
use provider_health_daemon.Base.{
  ℕ, String, Bool, true, false, not, ◌&&◌, Option, none, some, List, [], ◌∷◌, if◌then◌else◌, leb,
  elem, filter,
}
use provider_health_daemon.Base.Dict.{Dict}
use provider_health_daemon.Registry.{Registry, get_available_models}
use provider_health_daemon.Policy.{DataSensitivity, classify_model_policy, allowed}
use provider_health_daemon.Selector.{Selector, is_public, servable_models}
use provider_health_daemon.SmartRouter.Rank.{Context, fallback_chain, provider_of}
use provider_health_daemon.SmartRouter.Pool.{Pool, invalidate_combo_cache}
use provider_health_daemon.SmartRouter.Pool.Combos.{World, is_nil, get_default_combos}
pub mod Choice

abbrev pub max_fallback_retries : ℕ
max_fallback_retries = 2

-- What a handler shares with the others.
pub record Shared : Type 0 where
  pub registry : Option Registry
  pub has_smart_router : Bool
  pub selector : Option Selector
  pub pool : Pool

-- `_router_served_models`
abbrev served_or : List String → Selector × List String → Option Selector × List String
served_or models (sel, kept) = (some sel, if is_nil kept then models else kept)

unfoldable pub router_served_models : Option Selector → List String → Option Selector × List String
router_served_models sel [] = (sel, [])
router_served_models none (m ∷ ms) = (none, m ∷ ms)
router_served_models (some sel) (m ∷ ms) = served_or (m ∷ ms) (servable_models sel (m ∷ ms))

-- The ranking of a catalog, and the part of it that a router serves.
abbrev pub ranked_chain : Context → Shared → Registry → Pool → List String → Shared × List String
ranked_chain c s r pool [] = (record s { pool = pool }, [])
ranked_chain c s r pool (m ∷ ms) =
    let (health, chain) = fallback_chain c (some r) (m ∷ ms) in
    let (sel, served) = router_served_models s.selector chain in
    (record s { registry = health; selector = sel; pool = pool }, served)

-- The catalog's models that are available; if there are none, those of the broad catalog.
abbrev pub available_catalog : World → ℕ → Bool → Registry → Pool × List String → Pool × List String
available_catalog w now broad r (pool, []) = (pool, [])
available_catalog w now broad r (pool, m ∷ ms) =
    let found = get_available_models now r (m ∷ ms) in
    let again = get_default_combos w true pool in
    if is_nil found && not broad
    then (again.0, get_available_models now r again.1)
    else (pool, found)

-- `_global_fallback_chain`
abbrev pub chain_with : World → Context → Bool → Bool → Shared → Registry → Shared × List String
chain_with w c refresh broad s r =
    let asked = if refresh then invalidate_combo_cache s.pool else s.pool in
    let found = available_catalog w c.now broad r (get_default_combos w broad asked) in
    ranked_chain c s r found.0 found.1

abbrev pub chain_if :
    World → Context → Bool → Bool → Shared → Option Registry → Bool → Shared × List String
chain_if w c refresh broad s none has_router = (s, [])
chain_if w c refresh broad s (some r) false = (s, [])
chain_if w c refresh broad s (some r) true = chain_with w c refresh broad s r

unfoldable pub global_fallback_chain : World → Context → Bool → Bool → Shared → Shared × List String
global_fallback_chain w c refresh broad s =
    chain_if w c refresh broad s s.registry s.has_smart_router

-- `_policy_filter_models`, for a request whose data is classified, with what the provider says of its models
unfoldable pub policy_filter_models : Dict Bool → DataSensitivity → List String → List String
policy_filter_models policies level models =
    if is_public level
    then models
    else filter (λ m. allowed (classify_model_policy policies m) level) models

abbrev pub of_request : Dict Bool → Option DataSensitivity → List String → List String
of_request policies none models = models
of_request policies (some level) models = policy_filter_models policies level models

-- The first model that is not tried and whose provider is not tried.
unfoldable pub first_untried : (tried tried_providers : List String) → List String → Option String
first_untried tried providers [] = none
first_untried tried providers (m ∷ ms) =
    let rest = first_untried tried providers ms in
    if elem m tried then rest else if elem (provider_of m) providers then rest else some m

-- `_next_fallback_model`, for a request with data of a level, or without one
unfoldable pub next_fallback_model :
    World
    → Context
    → Shared
    → Dict Bool
    → Option DataSensitivity
    → (tried tried_providers : List String) → Shared × Option String
next_fallback_model w c s policies level tried providers =
    let (after, chain) = global_fallback_chain w c false false s in
    (after, first_untried tried providers (of_request policies level chain))

abbrev is_past : ℕ → Option ℕ → Bool
is_past tick none = false
is_past tick (some deadline) = leb deadline tick

-- `_may_fallback`
unfoldable pub may_fallback : ℕ → ℕ → Option ℕ → Bool
may_fallback tick attempts deadline =
    if leb max_fallback_retries attempts then false else not (is_past tick deadline)
