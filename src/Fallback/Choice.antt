-- ===== src/Fallback/Choice.antt =====
-- proxy_handler.py: what holds of the model that a request falls back to.
use provider_health_daemon.Base.{
  arith, ℕ, ◌≡◌, sym, ap, String, Bool, true, false, not, ◌&&◌, Option, none, some, List, [], ◌∷◌,
  if◌then◌else◌, elem, filter, All, All-imp, All-both, or_else, All-filter, All-filter_test,
  Bool-cases, inl, inr,
}
use mathlib.Core.Path.{subst}
use provider_health_daemon.Base.Dict.{Dict}
use provider_health_daemon.Registry.{Registry, get_available_models, is_model_available}
use provider_health_daemon.Policy.{
  DataSensitivity, public, internal, sensitive, DataPolicy, may_train, classify_model_policy,
  allowed,
}
use provider_health_daemon.Selector.{
  Selector, is_public, servable_models, is_servable, register_catalogs,
}
use provider_health_daemon.SmartRouter.Rank.{Context, fallback_chain, provider_of}
use provider_health_daemon.SmartRouter.Rank.Order.{fallback_chain-All}
use provider_health_daemon.SmartRouter.Pool.{Pool, invalidate_combo_cache}
use provider_health_daemon.SmartRouter.Pool.Combos.{World, is_nil, get_default_combos}
use provider_health_daemon.Routers.{RouterState, get_healthy_routers}
use provider_health_daemon.ModelIds.{ModelIdMapper}
use provider_health_daemon.Fallback.{
  Shared, router_served_models, ranked_chain, available_catalog, chain_if, global_fallback_chain,
  policy_filter_models, of_request, first_untried, next_fallback_model,
}

module _ (P : String → Type 0) where
  by_routers :
      (sel : Selector) (mapper : ModelIdMapper) (ms : List String) (rs : List RouterState)
      → All P ms
      → All P
          (elim rs as (λ _. Selector × List String) [
            | [] ↦ (sel, [])
            | r ∷ others ↦
                (record sel { model_mapper = mapper }, filter (is_servable mapper (r ∷ others)) ms)
          ]).1
  by_routers sel mapper ms [] a = tt
  by_routers sel mapper ms (r ∷ rs) a = All-filter P (is_servable mapper (r ∷ rs)) ms a

  served-All : (sel : Selector) (ms : List String) → All P ms → All P (servable_models sel ms).1
  unfolding servable_models
  served-All sel ms a =
      let healthy = get_healthy_routers sel.registry in
      by_routers sel (register_catalogs sel.model_mapper healthy) ms healthy a

  nil_or :
      (ms kept : List String) → All P ms → All P kept → All P (if is_nil kept then ms else kept)
  nil_or ms [] a k = a
  nil_or ms (m ∷ kept) a k = k

  router_served-All :
      (sel : Option Selector) (ms : List String) → All P ms → All P (router_served_models sel ms).1
  unfolding router_served_models
  router_served-All sel [] a = tt
  router_served-All none (m ∷ ms) a = a
  router_served-All (some sel) (m ∷ ms) a =
      nil_or (m ∷ ms) (servable_models sel (m ∷ ms)).1 a (served-All sel (m ∷ ms) a)

  ranked_chain-All :
      (c : Context) (s : Shared) (r : Registry) (pool : Pool) (ms : List String)
      → All P ms
      → All P (ranked_chain c s r pool ms).1
  ranked_chain-All c s r pool [] a = tt
  ranked_chain-All c s r pool (m ∷ ms) a =
      router_served-All s.selector (fallback_chain c (some r) (m ∷ ms)).1
        (fallback_chain-All P c (some r) (m ∷ ms) a)

  first_untried-All :
      (tried providers ms : List String) (m : String)
      → All P ms
      → first_untried tried providers ms ≡ some m
      → P m × (elem m tried ≡ false) × (elem (provider_of m) providers ≡ false)
  unfolding first_untried
  first_untried-All tried providers [] m a q = cc
  first_untried-All tried providers (x ∷ ms) m a q = elim (Bool-cases (elem x tried)) [
    | inl t ↦
        let rest : first_untried tried providers ms ≡ some m = rw t at q in
        first_untried-All tried providers ms m a.1 rest
    | inr t ↦ elim (Bool-cases (elem (provider_of x) providers)) [
      | inl u ↦
          let rest : first_untried tried providers ms ≡ some m = rw (t, u) at q in
          first_untried-All tried providers ms m a.1 rest
      | inr u ↦
          let here : some x ≡ some m = rw (t, u) at q in
          let same : x ≡ m = ap (λ o. or_else o x) here in
          subst (λ y. P y × (elem y tried ≡ false) × (elem (provider_of y) providers ≡ false)) same
            (a.0, t, u)
    ]
  ]

-- What a model is that the registry lets pass at an instant, and the data policy for a level.
abbrev Available : ℕ → Registry → String → Type 0
Available now r m = is_model_available now r m ≡ true

-- A request whose data is not public has no model whose policy is that it may train on prompts. A model
-- whose policy is unknown is let through.
abbrev pub Permitted : Dict Bool → Option DataSensitivity → String → Type 0
Permitted policies none m = Unit
Permitted policies (some level) m =
    is_public level ≡ false → may_train (classify_model_policy policies m) ≡ false

not-may_train : (b : Bool) → (if b then false else true) ≡ true → b ≡ false
not-may_train b h = ground arith

allowed-may_train :
    (policy : DataPolicy) (level : DataSensitivity)
    → is_public level ≡ false
    → allowed policy level ≡ true
    → may_train policy ≡ false
unfolding allowed is_public
allowed-may_train policy public n h = cc
allowed-may_train policy internal n h = not-may_train (may_train policy) h
allowed-may_train policy sensitive n h = not-may_train (may_train policy) h

available_catalog-All :
    (w : World) (now : ℕ) (broad : Bool) (r : Registry) (found : Pool × List String)
    → All (Available now r) (available_catalog w now broad r found).1
unfolding get_available_models
available_catalog-All w now broad r (pool, []) = tt
available_catalog-All w now broad r (pool, m ∷ ms) =
    let ok : String → Bool = is_model_available now r in
    elim (Bool-cases (is_nil (get_available_models now r (m ∷ ms)) && not broad)) [
      | inl e ↦ rw e (All-filter_test ok (get_default_combos w true pool).1)
      | inr e ↦ rw e (All-filter_test ok (m ∷ ms))
    ]

chain_if-All :
    (w : World) (c : Context) (refresh broad : Bool) (s : Shared) (r : Registry) (has_router : Bool)
    → All (Available c.now r) (chain_if w c refresh broad s (some r) has_router).1
chain_if-All w c refresh broad s r false = tt
chain_if-All w c refresh broad s r true =
    let asked = if refresh then invalidate_combo_cache s.pool else s.pool in
    let catalog = get_default_combos w broad asked in
    let found = available_catalog w c.now broad r catalog in
    ranked_chain-All (Available c.now r) c s r found.0 found.1
      (available_catalog-All w c.now broad r catalog)

global_fallback_chain-All :
    (w : World) (c : Context) (refresh broad : Bool) (s : Shared) (r : Registry)
    → s.registry ≡ some r
    → All (Available c.now r) (global_fallback_chain w c refresh broad s).1
unfolding global_fallback_chain
global_fallback_chain-All w c refresh broad s r q =
    subst (λ o. All (Available c.now r) (chain_if w c refresh broad s o s.has_smart_router).1)
      (sym q) (chain_if-All w c refresh broad s r s.has_smart_router)

of_request-All :
    (P : String → Type 0) (policies : Dict Bool) (level : Option DataSensitivity) (ms : List String)
    → All P ms
    → All (λ m. P m × Permitted policies level m) (of_request policies level ms)
unfolding policy_filter_models
of_request-All P policies none ms a = All-imp (λ m p. (p, tt)) ms a
of_request-All P policies (some level) ms a =
    let ok : String → Bool = λ m. allowed (classify_model_policy policies m) level in
    elim (Bool-cases (is_public level)) [
      | inl e ↦ rw e (All-imp (λ m p. (p, λ no. cc)) ms a)
      | inr e ↦ rw e (
          All-imp
            (λ m p. (p.0, λ _. allowed-may_train (classify_model_policy policies m) level e p.1))
            (filter ok ms)
            (All-both P (λ m. ok m ≡ true) (filter ok ms) (All-filter P ok ms a)
              (All-filter_test ok ms)))
    ]

-- If there is a registry and a model is found, the model that a request falls back to is available in the
-- registry at that instant, was not tried, and is of a provider that was not tried; for a request whose data
-- is not public it is no model that may train on prompts by its data policy.
pub next_fallback_model_lem :
    (w : World) (c : Context) (s : Shared) (policies : Dict Bool) (level : Option DataSensitivity)
    (tried providers : List String) (r : Registry) (m : String)
    → s.registry ≡ some r
    → (next_fallback_model w c s policies level tried providers).1 ≡ some m
    → ((is_model_available c.now r m ≡ true) × Permitted policies level m)
      × (elem m tried ≡ false)
      × (elem (provider_of m) providers ≡ false)
unfolding next_fallback_model
next_fallback_model_lem w c s policies level tried providers r m q found =
    let chain = (global_fallback_chain w c false false s).1 in
    let a = global_fallback_chain-All w c false false s r q in
    first_untried-All (λ x. Available c.now r x × Permitted policies level x) tried providers
      (of_request policies level chain) m
      (of_request-All (Available c.now r) policies level chain a) found
