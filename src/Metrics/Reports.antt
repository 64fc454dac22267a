-- ===== src/Metrics/Reports.antt =====
-- metrics_store.py: the reports on the window. A rate is in ten-thousandths, an average in tenths; which
-- way an exact tie is rounded is an argument.
use mathlib.Core.Option
use mathlib.Core.List.{reverse}
use provider_health_daemon.Base.{
  ℕ, ◌+◌, ◌-◌, ◌*◌, min, String, Option, none, some, List, [], ◌∷◌, map, if◌then◌else◌, ltb, ◌==◌,
  filter, length, sum_by, or_else, before, contains,
}
use provider_health_daemon.Base.Dict.{Dict, get, put, values}
use provider_health_daemon.Base.Sorting.{sort}
use provider_health_daemon.Base.Rounding.{Ties, average, round_div}
use provider_health_daemon.Metrics.{
  RequestRecord, ProviderMetrics, MetricsStore, no_metrics, accumulate, aggregate, window_records,
  p95_latency_ms, provider_metrics, item, last_of,
}

-- The statistics of a provider or of a model; some reports of the code leave a few of them out.
pub record Row : Type 0 where
  pub total_requests : ℕ
  pub successful : ℕ
  pub failed : ℕ
  pub error_rate : ℕ
  pub tokens_in : ℕ
  pub tokens_out : ℕ
  pub tokens_cache : ℕ
  pub total_tokens : ℕ
  pub avg_latency_ms : ℕ
  pub p95_latency_ms : ℕ
  pub avg_ttft_ms : ℕ
  pub tokens_per_second : ℕ
  pub errors_by_type : Dict ℕ

unfoldable pub row_of : Ties → ProviderMetrics → Row
unfolding average
row_of ties pm = record {
  total_requests = pm.total_requests;
  successful = pm.successful_requests;
  failed = pm.failed_requests;
  error_rate = average ties (pm.failed_requests * 10_000) pm.total_requests;
  tokens_in = pm.tokens_in;
  tokens_out = pm.tokens_out;
  tokens_cache = pm.tokens_cache;
  total_tokens = pm.tokens_in + pm.tokens_out;
  avg_latency_ms = average ties (pm.total_duration_ms * 10) pm.total_requests;
  p95_latency_ms = p95_latency_ms pm;
  avg_ttft_ms = average ties (pm.total_ttft_ms * 10) pm.total_requests;
  tokens_per_second = average ties (pm.tokens_out * 10_000) pm.total_duration_ms;
  errors_by_type = pm.errors_by_type;
}

unfoldable pub get_provider_stats : Ties → ℕ → MetricsStore → String → ℕ → Option Row
get_provider_stats ties now s provider window =
    Option.map (row_of ties) (provider_metrics now s provider window)

-- The loop of `get_all_model_stats`: the sums by model.
unfoldable pub model_sums : Dict ProviderMetrics → List RequestRecord → Dict ProviderMetrics
model_sums d [] = d
model_sums d (r ∷ rs) =
    model_sums (put d r.model (accumulate (or_else (get d r.model) no_metrics) r)) rs

-- The provider is told by the id, if it has a slash.
abbrev provider_in : String → String
provider_in model = if contains model "/" then before b'/' model else ""

unfoldable pub get_all_model_stats : Ties → ℕ → MetricsStore → ℕ → ℕ × Dict (String × Row)
unfolding model_sums row_of
get_all_model_stats ties now s window =
    let records = window_records now s window in
    (length records, map (λ e. (e.0, (provider_in e.0, row_of ties e.1))) (model_sums [] records))

pub record Global : Type 0 where
  pub total_requests : ℕ
  pub successful : ℕ
  pub failed : ℕ
  pub error_rate : ℕ
  pub tokens_in : ℕ
  pub tokens_out : ℕ
  pub total_tokens : ℕ
  pub avg_latency_ms : ℕ

-- `_global_stats`
unfoldable pub global_stats : Ties → Dict ProviderMetrics → Global
unfolding average sum_by
global_stats ties agg =
    let total = sum_by (λ (pm : ProviderMetrics). pm.total_requests) (values agg) in
    let failed = sum_by (λ (pm : ProviderMetrics). pm.failed_requests) (values agg) in
    let tokens_in = sum_by (λ (pm : ProviderMetrics). pm.tokens_in) (values agg) in
    let tokens_out = sum_by (λ (pm : ProviderMetrics). pm.tokens_out) (values agg) in
    record {
      total_requests = total;
      successful = sum_by (λ (pm : ProviderMetrics). pm.successful_requests) (values agg);
      failed = failed;
      error_rate = average ties (failed * 10_000) total;
      tokens_in = tokens_in;
      tokens_out = tokens_out;
      total_tokens = tokens_in + tokens_out;
      avg_latency_ms =
          average ties (sum_by (λ (pm : ProviderMetrics). pm.total_duration_ms) (values agg) * 10)
            total;
    }

unfoldable pub get_all_stats : Ties → ℕ → MetricsStore → ℕ → ℕ × Dict Row × Global
unfolding global_stats aggregate row_of
get_all_stats ties now s window =
    let records = window_records now s window in
    let agg = aggregate records in
    (length records, map (λ e. (e.0, row_of ties e.1)) agg, global_stats ties agg)

-- The most recent requests, the last one first.
unfoldable pub get_recent_requests : MetricsStore → ℕ → List RequestRecord
unfolding last_of
get_recent_requests s limit = reverse (last_of limit s.records)

-- The times to the first token that were measured, in order.
unfoldable pub ttft_samples : ℕ → MetricsStore → ℕ → List ℕ
unfolding window_records
ttft_samples now s window =
    sort ltb (filter (ltb 0) (map (λ (r : RequestRecord). r.ttft_ms) (window_records now s window)))

unfoldable pub percentile : Ties → List ℕ → ℕ → ℕ
unfolding item round_div
percentile ties samples p =
    let n = length samples in item samples (min (n - 1) (round_div ties (p * (n - 1)) 100))

-- The 50th and 95th percentiles, none without samples, and the number of samples.
unfoldable pub ttft_percentiles : Ties → ℕ → MetricsStore → ℕ → Option (ℕ × ℕ) × ℕ
unfolding ttft_samples percentile
ttft_percentiles ties now s window =
    let samples = ttft_samples now s window in
    (
      if length samples == 0
          then none
          else some (percentile ties samples 50, percentile ties samples 95),
      length samples,
    )
