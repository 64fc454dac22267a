-- ===== src/SmartRouter/Rank.antt =====
-- smart_router.py: `rank_models`, `fallback_chain`. The score is the total of the code's dictionary,
-- in tenths; the other entries of the dictionary are for the log. The limits of a prompt come from
-- `prompt_limiter`, a module that may be missing, and are an argument.
use provider_health_daemon.Base.{
  ℕ, ◌+◌, ◌*◌, ◌/◌, min, String, Bool, true, false, not, ◌&&◌, Option, none, some, List, [], ◌∷◌,
  map, if◌then◌else◌, ltb, ◌==◌, elem, filter, str_eq, before,
}
use provider_health_daemon.Base.Sorting.{sort}
use provider_health_daemon.Clock.{seconds}
use provider_health_daemon.Metrics.{
  MetricsStore, RequestRecord, ProviderMetrics, window_records, accumulate_all, no_metrics,
  provider_metrics,
}
use provider_health_daemon.Registry.{
  Registry, Entry, Status, healthy, get_provider, get_model, is_model_available,
}
use provider_health_daemon.Registry.Circuit.{is_provider_healthy, get_429_penalty}
use provider_health_daemon.Registry.Errors.{failures_of}
use provider_health_daemon.Base.Rounding.{Ties}
use provider_health_daemon.SmartRouter.Tables.{permanently_blocked, fallback_only_penalty}
use provider_health_daemon.SmartRouter.Names.{size_penalty}
use provider_health_daemon.SmartRouter.Score.{Stats, stats_of, compute_score}
pub mod Order

-- What a ranking reads and does not change: the time, the metrics, the explicit context window of a
-- model, and the size of the prompt, 0 if it is not told.
pub record Context : Type 0 where
  pub now : ℕ
  pub ties : Ties
  pub metrics : Option MetricsStore
  pub explicit_context : String → Option ℕ
  pub prompt_tokens : ℕ

pub record Ranked : Type 0 where
  pub model_id : String
  pub provider : String
  pub total : ℕ

-- `model_id.split("/")[0]`
abbrev pub provider_of : String → String
provider_of model_id = before b'/' model_id

-- A prompt fits in three quarters of a window that is known.
abbrev pub fits_window : ℕ → Option ℕ → Bool
fits_window prompt none = true
fits_window prompt (some window) = not (ltb 0 window && ltb (window * 3 / 4) prompt)

unfoldable pub prompt_fits : Context → String → Bool
prompt_fits c model_id =
    if ltb 0 c.prompt_tokens
    then fits_window c.prompt_tokens (c.explicit_context model_id)
    else true

-- `entry and entry.get("status") == "healthy"`
abbrev pub has_status_healthy : Option Entry → Bool
has_status_healthy none = false
has_status_healthy (some e) = elim e.status [
  | none ↦ false
  | some s ↦ elim s [ healthy ↦ true | _ ↦ false ]
]

abbrev proven : Option Registry → String → Bool
proven none provider = false
proven (some r) provider = has_status_healthy (get_provider r provider)

-- A blocked provider whose entry does not prove it healthy.
unfoldable pub fallback_only : Option Registry → String → Bool
fallback_only health provider = elem provider permanently_blocked && not (proven health provider)

-- The registry's check of the model and of its provider, which may change a breaker.
unfoldable pub passes_health : ℕ → Option Registry → String → Option Registry × Bool
passes_health now none model_id = (none, true)
passes_health now (some r) model_id =
    if is_model_available now r model_id
    then (let (r', answer) = is_provider_healthy now r (provider_of model_id) in (some r', answer))
    else (some r, false)

-- `get_model_stats`, with no record of the model no statistics.
unfoldable pub model_metrics : ℕ → MetricsStore → String → ℕ → Option ProviderMetrics
unfolding window_records
model_metrics now s model window =
    elim (filter (λ r. str_eq r.model model) (window_records now s window)) [
      | [] ↦ none
      | r ∷ rs ↦ some (accumulate_all no_metrics (r ∷ rs))
    ]

abbrev first_of : Option ProviderMetrics → Option ProviderMetrics → Option ProviderMetrics
first_of none second = second
first_of (some pm) second = some pm

abbrev stats_some : Ties → Option ProviderMetrics → Option Stats
stats_some ties none = none
stats_some ties (some pm) = some (stats_of ties pm)

-- The model's own statistics, or else those of its provider, over five minutes.
abbrev stats_from : ℕ → Ties → Option MetricsStore → String → Option Stats
stats_from now ties none model_id = none
stats_from now ties (some s) model_id = stats_some ties (
    first_of (model_metrics now s model_id (seconds 300))
      (provider_metrics now s (provider_of model_id) (seconds 300)))

unfoldable pub stats_for : Context → String → Option Stats
unfolding model_metrics
stats_for c model_id = stats_from c.now c.ties c.metrics model_id

-- The penalties of the registry: failures of the model, and rate limits of the provider.
unfoldable pub health_penalty : ℕ → Option Registry → String → ℕ
unfolding failures_of
health_penalty now none model_id = 0
health_penalty now (some r) model_id =
    min (failures_of (get_model r model_id) * 50) 250 + get_429_penalty now r (provider_of model_id)

-- The total. Whether the provider is only a fallback is read from the registry before the check.
unfoldable pub total_of : Context → Option Registry → Option Registry → String → ℕ
unfolding stats_for health_penalty fallback_only
total_of c unchecked checked model_id =
    compute_score c.ties (provider_of model_id) (stats_for c model_id)
    + size_penalty model_id * 10
    + health_penalty c.now checked model_id * 10
    + (if fallback_only unchecked (provider_of model_id) then fallback_only_penalty * 10 else 0)

abbrev pub ranked_as : Context → Option Registry → Option Registry → String → Ranked
ranked_as c unchecked checked model_id = record {
  model_id = model_id;
  provider = provider_of model_id;
  total = total_of c unchecked checked model_id;
}

abbrev pub check : Context → Option Registry → String → Option Registry × Bool
check c health model_id =
    if prompt_fits c model_id then passes_health c.now health model_id else (health, false)

-- The loop: each model is asked of the registry as the models before it have left it.
unfoldable pub score_models :
    Context → Option Registry → List String → Option Registry × List Ranked
score_models c health [] = (health, [])
score_models c health (model_id ∷ ids) =
    let (checked, passes) = check c health model_id in
    let (last, rest) = score_models c checked ids in
    (last, if passes then ranked_as c health checked model_id ∷ rest else rest)

abbrev pub is_better : Ranked → Ranked → Bool
is_better a b = ltb a.total b.total

unfoldable pub rank_models : Context → Option Registry → List String → Option Registry × List Ranked
unfolding score_models
rank_models c health ids =
    let (last, scored) = score_models c health ids in (last, sort is_better scored)

unfoldable pub fallback_chain :
    Context → Option Registry → List String → Option Registry × List String
unfolding rank_models
fallback_chain c health ids =
    let (last, ranked) = rank_models c health ids in (last, map (λ (x : Ranked). x.model_id) ranked)
