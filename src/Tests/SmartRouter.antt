-- ===== src/Tests/SmartRouter.antt =====
-- The theorems on the smart router at concrete inputs.
use provider_health_daemon.Base.{
  ◌+◌, ◌<◌, ◌≡◌, ◌≢◌, refl, true, false, some, none, [], ◌∷◌, List, String, Option, map, any, arith,
  filter, elem, All, before, contains, drop_prefix, strip,
}
use provider_health_daemon.Base.Dict.{get, Each}
use provider_health_daemon.Base.Sorting.{sort, insert}
use provider_health_daemon.Clock.{seconds, at}
use provider_health_daemon.SmartRouter.Names.{is_tiny_model, size_penalty, is_non_chat_model}
use provider_health_daemon.SmartRouter.Score.{Stats}
use provider_health_daemon.SmartRouter.Rank.{Context, Ranked, ranked_as, is_better, rank_models}
use provider_health_daemon.SmartRouter.Rank.Order.{is_candidate, rank_models_lem}
use provider_health_daemon.SmartRouter.Spread.{
  band, goes_first, spread_choice, spread_select, used_today, last_use, in_band,
}
use provider_health_daemon.SmartRouter.Spread.Rotation.{spread_select-rotates}
use provider_health_daemon.SmartRouter.Pool.{
  Pool, Connection, get_locked_model_ids, invalidate_combo_cache,
}
use provider_health_daemon.SmartRouter.Pool.Catalog.{Item}
use provider_health_daemon.SmartRouter.Pool.Combos.{
  World, read_combo_cache, filter_both, in_memory, get_default_combos,
}
use provider_health_daemon.SmartRouter.Pool.Combos.Sources.{invalidate-disk}
use provider_health_daemon.SmartRouter.Pool.Combos.Clean.{IsServable, get_default_combos-IsServable}
use provider_health_daemon.Tests.Cooldowns.{noon}
use provider_health_daemon.Tests.Health.{one_cooling}

program : Unit {0}
unfolding get_default_combos in_memory read_combo_cache filter_both get_locked_model_ids
    is_non_chat_model is_tiny_model invalidate_combo_cache any elem contains before drop_prefix
    strip get filter
program = tt

sizes :
    (size_penalty "nvidia/nemotron-3-nano-30b-a3b" ≡ size_penalty "x/y-30b")
    × (is_tiny_model "groq/llama-3.1-7.5B" ≡ true)
    × (is_tiny_model "groq/llama-3.1-8b" ≡ false)
    × (is_tiny_model "groq/3bit" ≡ false)
    × (is_non_chat_model "kr/whisper-large" ≡ true)
unfolding size_penalty is_tiny_model is_non_chat_model any elem strip
sizes = (refl, refl, refl, refl, refl)

slow : Stats
slow = record {
  total_requests = 4;
  failed = 3;
  error_rate = 7_500;
  avg_latency_ms = 52_000;
  p95_latency_ms = 9_000;
  errors_by_type = ("no_credit", 1) ∷ [];
}

slower : Stats
slower = record slow {
  p95_latency_ms = 40_000;
  failed = 4;
  error_rate = 10_000;
  total_requests = 4;
}

abbrev pub quiet : Context
quiet = record {
  now = noon;
  ties = λ n d. true;
  metrics = none;
  explicit_context = λ m. none;
  prompt_tokens = 0;
}

abbrev three : List String
three = "groq/llama-70b" ∷ "kr/auto" ∷ "nvidia/mixtral-8b" ∷ []

-- The provider groq cools down, and the small model has a penalty.
rank_models_lem_example :
    (rank_models quiet (some one_cooling) three).1
    ≡ sort is_better (
        map
          (ranked_as quiet (some one_cooling) (some one_cooling))
          (filter (is_candidate quiet (some one_cooling)) three))
rank_models_lem_example = rank_models_lem quiet (some one_cooling) three

first : Ranked
first = record { model_id = "kr/auto"; provider = "kr"; total = 380 }

second : Ranked
second = record { model_id = "kr/big"; provider = "kr"; total = 400 }

third : Ranked
third = record { model_id = "cf/llama-70b"; provider = "cf"; total = 600 }

none_yet : Each (λ t. t < 7) []
unfolding get
none_yet k t e = cc

spread_select-rotates_example :
    (spread_select 9 []
      (spread_select 7 [] [] first (second ∷ third ∷ [])).0
      first
      (second ∷ third ∷ [])).1.provider
    ≢ (spread_select 7 [] [] first (second ∷ third ∷ [])).1.provider
unfolding spread_select spread_choice goes_first band used_today last_use in_band get sort insert
    any filter first second third
spread_select-rotates_example =
    spread_select-rotates 7 9 [] first (second ∷ third ∷ []) (omega arith) none_yet refl

locks : Option (List (String × Connection))
locks = some (
    (
      "kr",
      record { model_locks = ("auto", some (at (noon + seconds 9))) ∷ []; connection_count = 3 },
    )
    ∷ [])

abbrev pub fresh_pool : Pool
fresh_pool = record {
  combo = record { value = []; time = 0 };
  disabled = record { value = []; time = 0 };
  locked = record { value = []; time = 0 };
  counts = record { value = []; time = 0 };
  disk = some (record {
    mtime = noon;
    models = some ("groq/llama-3.3-70b-versatile" ∷ "kr/whisper-large" ∷ "plain" ∷ []);
  });
}

abbrev pub items : List Item
items = record { id = some "kr/auto"; context = 8_000 } ∷ record { id = none; context = 0 } ∷ []

abbrev pub world : World
world = record {
  now = noon;
  connections = none;
  disabled = none;
  catalog = some items;
  writable = true;
}

get_default_combos-IsServable_example :
    All IsServable (get_default_combos world true fresh_pool).0.combo.value
    × All IsServable (get_default_combos world true fresh_pool).1
get_default_combos-IsServable_example = get_default_combos-IsServable world true fresh_pool tt

abbrev later : World
later = record world { now = noon + seconds 299; catalog = none }

invalidate-disk_example :
    get_default_combos (record world { catalog = none }) false (invalidate_combo_cache fresh_pool)
    ≡ get_default_combos world false (invalidate_combo_cache fresh_pool)
unfolding program
invalidate-disk_example =
    invalidate-disk world none fresh_pool "groq/llama-3.3-70b-versatile" [] refl
