-- ===== src/SmartRouter/Rank/Order.antt =====
-- smart_router.py: `rank_models` against the registry as it was before the call.
use provider_health_daemon.Base.{
  ℕ, String, ◌≡◌, refl, sym, ap, ◌∙◌, Bool, true, false, ◌&&◌, Option, none, some, List, [], ◌∷◌,
  map, arith, if◌then◌else◌, filter, Bool-cases, inl, inr, All, All-filter_test, All-filter,
}
use provider_health_daemon.Base.Sorting.{sort, Sorted, IsOrder, sort-Sorted, All-sort}
use provider_health_daemon.Registry.{Registry, get_provider, get_model, is_model_available}
use provider_health_daemon.Registry.Circuit.Reads.{
  Agree, Agree-refl, Agree-trans, can_execute_cb-Agree, healthy_answer, is_provider_healthy_lem,
}
use provider_health_daemon.SmartRouter.Rank.{
  Context, Ranked, provider_of, prompt_fits, fallback_only, passes_health, health_penalty, total_of,
  ranked_as, check, score_models, is_better, rank_models, fallback_chain,
}

-- Two registries, or none, that answer alike.
pub data Same (now : ℕ) : Option Registry → Option Registry → Type 0 where
  absent : Same now none none
  agree : {r r' : Registry} → Agree now r r' → Same now (some r) (some r')

pub Same-refl : (now : ℕ) (h : Option Registry) → Same now h h
Same-refl now none = absent
Same-refl now (some r) = agree (Agree-refl now r)

healthy_answer-Agree :
    {now : ℕ} {r r' : Registry} (q : String)
    → Agree now r r'
    → healthy_answer now r' q ≡ healthy_answer now r q
unfolding get_provider
healthy_answer-Agree q a = rw (a.answers q, a.providers) refl

is_model_available-Agree :
    {now : ℕ} {r r' : Registry} (m : String)
    → Agree now r r'
    → is_model_available now r' m ≡ is_model_available now r m
unfolding is_model_available get_provider get_model
is_model_available-Agree m a = rw (a.models, a.providers) refl

-- What the check of a model answers: the registry has no entry of the model or of its provider that
-- is not healthy, and the provider's breaker lets a request pass.
abbrev pub admitted : ℕ → Option Registry → String → Bool
admitted now none model_id = true
admitted now (some r) model_id =
    is_model_available now r model_id && healthy_answer now r (provider_of model_id)

abbrev pub is_candidate : Context → Option Registry → String → Bool
is_candidate c health model_id = prompt_fits c model_id && admitted c.now health model_id

passes_health-Same :
    {now : ℕ} {h h' : Option Registry} (m : String)
    → Same now h h'
    → Same now h (passes_health now h' m).0 × ((passes_health now h' m).1 ≡ admitted now h m)
unfolding passes_health
passes_health-Same m absent = (absent, refl)
passes_health-Same {now} m (agree {r} {r'} a) = elim (Bool-cases (is_model_available now r' m)) [
  | inl e ↦
      rw (e, sym (is_model_available-Agree m a) ∙ e, is_provider_healthy_lem now r' (provider_of m))
        (
          agree (Agree-trans a (can_execute_cb-Agree now r' (provider_of m))),
          healthy_answer-Agree (provider_of m) a,
        )
  | inr e ↦ rw (e, sym (is_model_available-Agree m a) ∙ e) (agree a, refl)
]

check-Same :
    (c : Context) {h h' : Option Registry} (m : String)
    → Same c.now h h'
    → Same c.now h (check c h' m).0 × ((check c h' m).1 ≡ is_candidate c h m)
check-Same c m s = elim (Bool-cases (prompt_fits c m)) [
  | inl e ↦ rw e (passes_health-Same m s)
  | inr e ↦ rw e (s, refl)
]

health_penalty-Same :
    {now : ℕ} {h v : Option Registry} (m : String)
    → Same now h v
    → health_penalty now v m ≡ health_penalty now h m
unfolding health_penalty get_model
health_penalty-Same m absent = refl
health_penalty-Same m (agree a) = rw (a.limits (provider_of m), a.models) refl

fallback_only-Same :
    {now : ℕ} {h u : Option Registry} (p : String)
    → Same now h u
    → fallback_only u p ≡ fallback_only h p
unfolding fallback_only get_provider
fallback_only-Same p absent = refl
fallback_only-Same p (agree a) = rw (a.providers) refl

ranked_as-Same :
    (c : Context) {h u v : Option Registry} (m : String)
    → Same c.now h u
    → Same c.now h v
    → ranked_as c u v m ≡ ranked_as c h h m
unfolding total_of
ranked_as-Same c m s t = rw (health_penalty-Same m t, fallback_only-Same (provider_of m) s) refl

ranked_if :
    (b : Bool) (x y : Ranked) (rest rest' : List Ranked)
    → x ≡ y
    → rest ≡ rest'
    → (if b then x ∷ rest else rest) ≡ (if b then y ∷ rest' else rest')
ranked_if true x y rest rest' e f = cc
ranked_if false x y rest rest' e f = f

map_if :
    (b : Bool) (f : String → Ranked) (m : String) (ms : List String)
    → map f (if b then m ∷ ms else ms) ≡ (if b then f m ∷ map f ms else map f ms)
map_if true f m ms = refl
map_if false f m ms = refl

-- What the loop scores.
scored : (c : Context) (h : Option Registry) → List String → List Ranked
scored c h ids = map (ranked_as c h h) (filter (is_candidate c h) ids)

score_models-Same :
    (c : Context) {h h' : Option Registry} (ids : List String)
    → Same c.now h h'
    → Same c.now h (score_models c h' ids).0 × ((score_models c h' ids).1 ≡ scored c h ids)
unfolding score_models scored filter
score_models-Same c [] s = (s, refl)
score_models-Same c {h} {h'} (m ∷ ids) s =
    let k = check-Same c m s in
    let rest = score_models-Same c {h = h} {h' = (check c h' m).0} ids k.0 in
    (
      rest.0,
      rw (k.1, map_if (is_candidate c h m) (ranked_as c h h) m (filter (is_candidate c h) ids))
          (ranked_if (is_candidate c h m) _ _ _ _ (ranked_as-Same c m s k.0) rest.1),
    )

is_better-IsOrder : IsOrder is_better
is_better-IsOrder = record { asym = λ x y h. ground arith; trans = λ x y z h k. ground arith }

-- The ranking, whose loop changes breakers as it goes, is that of the registry before the call: the
-- models that fit the prompt and are available there, each with the total it has there, in a stable
-- order of the totals, the lowest first.
pub rank_models_lem :
    (c : Context) (health : Option Registry) (ids : List String)
    → (rank_models c health ids).1
      ≡ sort is_better (map (ranked_as c health health) (filter (is_candidate c health) ids))
unfolding rank_models scored
rank_models_lem c health ids =
    ap (sort is_better) (score_models-Same c ids (Same-refl c.now health)).1

All-map {ℓ} :
    {A : Type ℓ} (P : Ranked → Type 0) (f : A → Ranked) (xs : List A)
    → All (λ x. P (f x)) xs
    → All P (map f xs)
All-map P f [] a = tt
All-map P f (x ∷ xs) a = (a.0, All-map P f xs a.1)

All-names :
    (P : String → Type 0) (xs : List Ranked)
    → All (λ x. P x.model_id) xs
    → All P (map (λ (x : Ranked). x.model_id) xs)
All-names P [] a = tt
All-names P (x ∷ xs) a = (a.0, All-names P xs a.1)

-- The totals of a ranking never go down, and every model that is ranked fits the prompt, has neither
-- an entry of its own nor of its provider that is not healthy, and has a provider whose breaker lets a
-- request pass, all read from the registry before the call.
pub rank_models-Sorted :
    (c : Context) (health : Option Registry) (ids : List String)
    → Sorted is_better (rank_models c health ids).1
      × All (λ x. is_candidate c health x.model_id ≡ true) (rank_models c health ids).1
rank_models-Sorted c health ids = rw (rank_models_lem c health ids) (
  sort-Sorted is_better is_better-IsOrder
      (map (ranked_as c health health) (filter (is_candidate c health) ids)),
  All-sort is_better (λ x. is_candidate c health x.model_id ≡ true) _
      (All-map (λ x. is_candidate c health x.model_id ≡ true) (ranked_as c health health) _
        (All-filter_test (is_candidate c health) ids)),
)

-- What holds of the models of a catalog holds of its ranking.
pub fallback_chain-All :
    (P : String → Type 0) (c : Context) (health : Option Registry) (ids : List String)
    → All P ids
    → All P (fallback_chain c health ids).1
unfolding fallback_chain
fallback_chain-All P c health ids a =
    let kept = filter (is_candidate c health) ids in
    let names = All-filter P (is_candidate c health) ids a in
    All-names P (rank_models c health ids).1 (
      rw (rank_models_lem c health ids) (
        All-sort is_better (λ x. P x.model_id) _
          (All-map (λ x. P x.model_id) (ranked_as c health health) kept names)))
