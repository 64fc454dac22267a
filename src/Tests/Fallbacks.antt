-- ===== src/Tests/Fallbacks.antt =====
-- The theorem on the fallback of a request at a concrete input.
use provider_health_daemon.Base.{
  ◌≡◌, refl, true, false, some, none, [], ◌∷◌, List, String, elem, any, before, filter,
}
use provider_health_daemon.Base.Dict.{get, put}
use provider_health_daemon.Base.Sorting.{sort, insert}
use provider_health_daemon.Policy.{
  public, sensitive, unknown, classify_model_policy, allowed, may_train, kilo_policy, by_prefix,
  starts_with_any,
}
use provider_health_daemon.Registry.{
  is_model_available, get_available_models, get_model, get_provider, blocks, entry_is_healthy,
}
use provider_health_daemon.SmartRouter.Rank.{
  provider_of, fallback_chain, rank_models, score_models, passes_health, prompt_fits, total_of,
}
use provider_health_daemon.SmartRouter.Pool.Combos.{get_default_combos, in_memory}
use provider_health_daemon.Selector.{is_public}
use provider_health_daemon.Aliases.{normalize_provider, is_denied}
use provider_health_daemon.Cooldown.{is_expired}
use provider_health_daemon.Registry.Circuit.{
  is_provider_healthy, can_execute_cb, execute_step, get_cb, get_429_penalty,
}
use provider_health_daemon.SmartRouter.Score.{compute_score}
use provider_health_daemon.SmartRouter.Names.{size_penalty}
use provider_health_daemon.Fallback.{
  Shared, router_served_models, global_fallback_chain, policy_filter_models, first_untried,
  next_fallback_model, may_fallback,
}
use provider_health_daemon.Fallback.Choice.{Permitted, next_fallback_model_lem}
use provider_health_daemon.Tests.Health.{one_cooling}
use provider_health_daemon.Tests.Cooldowns.{noon}
use provider_health_daemon.Tests.SmartRouter.{quiet, fresh_pool, world}

abbrev catalog : List String
catalog = "groq/llama-70b" ∷ "nvidia/llama-70b" ∷ "cf/llama-70b" ∷ "kr/big" ∷ "kimchi/auto" ∷ []

-- The provider groq cools down, and nvidia may train on prompts.
abbrev shared : Shared
shared = record {
  registry = some one_cooling;
  has_smart_router = true;
  selector = none;
  pool = record fresh_pool { combo = record { value = catalog; time = noon } };
}

program : Unit {0}
unfolding next_fallback_model global_fallback_chain router_served_models policy_filter_models
    first_untried get_default_combos in_memory get_available_models is_model_available get_model
    get_provider blocks entry_is_healthy get elem any before filter sort insert fallback_chain
    rank_models score_models passes_health prompt_fits is_public normalize_provider is_expired
    is_provider_healthy can_execute_cb is_denied execute_step get_cb allowed may_train
    classify_model_policy kilo_policy by_prefix starts_with_any put total_of compute_score
    size_penalty get_429_penalty
program = tt

budget :
    (may_fallback 5 1 (some 6) ≡ true)
    × (may_fallback 6 1 (some 6) ≡ false)
    × (may_fallback 5 2 none ≡ false)
unfolding may_fallback
budget = (refl, refl, refl)

-- A sensitive request that has tried a model of cf: the other models are ruled out, each by another test.
next_fallback_model_lem_example :
    ((is_model_available noon one_cooling "kimchi/auto" ≡ true)
      × Permitted [] (some sensitive) "kimchi/auto")
    × (elem "kimchi/auto" ("kr/big" ∷ []) ≡ false)
    × (elem (provider_of "kimchi/auto") ("cf" ∷ []) ≡ false)
unfolding program
next_fallback_model_lem_example =
    next_fallback_model_lem world quiet shared [] (some sensitive) ("kr/big" ∷ []) ("cf" ∷ [])
      one_cooling "kimchi/auto" refl refl

-- Without the data policy nvidia is next.
ruled_out :
    ((next_fallback_model world quiet shared [] (some public) ("kr/big" ∷ []) ("cf" ∷ [])).1
      ≡ some "nvidia/llama-70b")
    × (is_model_available noon one_cooling "groq/llama-70b" ≡ false)
    × (classify_model_policy [] "kimchi/auto" ≡ unknown)
unfolding program
ruled_out = (refl, refl, refl)
