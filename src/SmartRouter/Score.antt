-- ===== src/SmartRouter/Score.antt =====
-- smart_router.py: `_compute_score`. A lower score is better. The code's floats are decimals of few
-- digits: a rate has four, a latency one, and a score is rounded to one. Here they are whole numbers
-- of ten-thousandths, of tenths of a millisecond and of tenths, and what is added before the rounding
-- is exact, in thousandths. Which way an exact tie is rounded depends on how a float is stored, so it
-- is an argument.
use provider_health_daemon.Base.{
  ℕ, zero, suc, ◌+◌, ◌-◌, ◌*◌, ◌/◌, ◌%◌, min, max, String, Bool, true, false, Option, none, some,
  List, [], ◌∷◌, if◌then◌else◌, ltb, leb, ◌==◌, sum_by, or_else,
}
use provider_health_daemon.Base.Dict.{Dict, get}
use provider_health_daemon.Base.Rounding.{Ties, round_div, average}
use provider_health_daemon.Metrics.{
  ProviderMetrics, MetricsStore, RequestRecord, window_records, accumulate_all, no_metrics,
  p95_latency_ms, provider_metrics,
}
use provider_health_daemon.SmartRouter.Tables.{
  access_error_types, provider_priority, no_data_penalty,
}
pub mod Bounds

-- What the score reads of `get_model_stats` and `get_provider_stats`: the rate in ten-thousandths, the
-- average latency in tenths of a millisecond.
pub record Stats : Type 0 where
  pub total_requests : ℕ
  pub failed : ℕ
  pub error_rate : ℕ
  pub avg_latency_ms : ℕ
  pub p95_latency_ms : ℕ
  pub errors_by_type : Dict ℕ

unfoldable pub stats_of : Ties → ProviderMetrics → Stats
unfolding average
stats_of ties pm = record {
  total_requests = pm.total_requests;
  failed = pm.failed_requests;
  error_rate = average ties (pm.failed_requests * 10_000) pm.total_requests;
  avg_latency_ms = average ties (pm.total_duration_ms * 10) pm.total_requests;
  p95_latency_ms = p95_latency_ms pm;
  errors_by_type = pm.errors_by_type;
}

unfoldable pub error_penalty : ℕ → ℕ
error_penalty rate =
    if ltb 5_000 rate
    then 200_000
    else if ltb 2_000 rate
    then 100_000
    else if ltb 500 rate
    then 50_000
    else rate * 10

unfoldable pub access_count : Dict ℕ → ℕ
access_count errors = sum_by (λ t. or_else (get errors t) 0) access_error_types

unfoldable pub access_penalty : ℕ → ℕ
access_penalty count = if ltb 0 count then 300_000 + min (count * 50_000) 400_000 else 0

-- The worse of the average and the 95th percentile, ten points a second.
unfoldable pub latency_penalty : Stats → ℕ
latency_penalty s = min (max s.avg_latency_ms (s.p95_latency_ms * 10)) 200_000

unfoldable pub fail_penalty : Stats → ℕ
fail_penalty s =
    if ltb 0 s.total_requests
    then if ltb 2 s.failed then min (s.failed * 20_000) 150_000 else 0
    else 0

-- The score before the cap, in thousandths.
unfoldable pub raw_score : ℕ → Option Stats → ℕ
unfolding error_penalty access_penalty access_count latency_penalty fail_penalty
raw_score base none = base * 1_000 + no_data_penalty * 1_000
raw_score base (some s) =
    base * 1_000
    + error_penalty s.error_rate
    + access_penalty (access_count s.errors_by_type)
    + latency_penalty s
    + fail_penalty s

unfoldable pub base_priority : String → ℕ
base_priority provider = or_else (get provider_priority provider) 50

-- The total of `_compute_score`, in tenths.
unfoldable pub compute_score : Ties → String → Option Stats → ℕ
unfolding base_priority raw_score round_div
compute_score ties provider stats =
    round_div ties (min (raw_score (base_priority provider) stats) 999_000) 100
