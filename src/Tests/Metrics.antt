-- ===== src/Tests/Metrics.antt =====
-- The theorems on the metrics at concrete inputs.
use provider_health_daemon.Base.{
  sum_by, if◌then◌else◌, ◌≡◌, true, false, some, none, [], ◌∷◌, List, String,
}
use provider_health_daemon.Clock.{minutes}
use provider_health_daemon.Metrics.{RequestRecord, MetricsStore, window_records}
use provider_health_daemon.Metrics.Sums.{counts_against}
use provider_health_daemon.Metrics.Reports.{get_all_stats}
use provider_health_daemon.Metrics.Totals.{get_all_stats-counts}
use provider_health_daemon.Tests.Cooldowns.{noon}

abbrev answered : String → RequestRecord
answered provider = record {
  timestamp = noon;
  provider = provider;
  model = "llama";
  duration_ms = 900;
  ttft_ms = 120;
  tokens_in = 40;
  tokens_out = 300;
  tokens_cache = 0;
  success = true;
  error_type = none;
}

abbrev rejected : RequestRecord
rejected = record (answered "groq") { success = false; error_type = some "request_invalid" }

abbrev three : List RequestRecord
three = answered "groq" ∷ answered "kr" ∷ rejected ∷ []

abbrev full : MetricsStore
full = record { max_records = 2; records = three; last_cleanup = noon }

get_all_stats-counts_example :
    ((get_all_stats (λ n d. true) noon full (minutes 5)).2.total_requests
      ≡ (get_all_stats (λ n d. true) noon full (minutes 5)).0)
    × ((get_all_stats (λ n d. true) noon full (minutes 5)).2.successful
        ≡ sum_by
            (λ (r : RequestRecord). if r.success then 1 else 0)
            (window_records noon full (minutes 5)))
    × ((get_all_stats (λ n d. true) noon full (minutes 5)).2.failed
        ≡ sum_by (λ r. if counts_against r then 1 else 0) (window_records noon full (minutes 5)))
get_all_stats-counts_example = get_all_stats-counts (λ n d. true) noon full (minutes 5)
