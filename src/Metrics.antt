-- ===== src/Metrics.antt =====
-- metrics_store.py: the rolling window of requests and its sums by provider. Time and its windows are
-- counted in microseconds; the averages, which are floats, are left to the reader of the sums.
use provider_health_daemon.Base.{
  ℕ, suc, ◌+◌, ◌-◌, ◌*◌, ◌/◌, min, String, Bool, true, false, Option, none, some, List, [], ◌∷◌,
  ◌++◌, if◌then◌else◌, filter, leb, ltb, ◌==◌, elem, length, drop, or_else, str_eq,
}
use provider_health_daemon.Base.Sorting.{sort}
use provider_health_daemon.Base.Dict.{Dict, get, put}
use provider_health_daemon.Clock.{seconds, hours}
pub mod Windows
pub mod Sums
pub mod Reports
pub mod Access
pub mod Totals

abbrev pub non_penalizing_error_types : List String
non_penalizing_error_types = "request_invalid" ∷ []

pub record RequestRecord : Type 0 where
  pub timestamp : ℕ
  pub provider : String
  pub model : String
  pub duration_ms : ℕ
  pub ttft_ms : ℕ
  pub tokens_in : ℕ
  pub tokens_out : ℕ
  pub tokens_cache : ℕ
  pub success : Bool
  pub error_type : Option String

pub record ProviderMetrics : Type 0 where
  pub total_requests : ℕ
  pub successful_requests : ℕ
  pub failed_requests : ℕ
  pub tokens_in : ℕ
  pub tokens_out : ℕ
  pub tokens_cache : ℕ
  pub total_duration_ms : ℕ
  pub total_ttft_ms : ℕ
  pub durations : List ℕ
  pub ttfts : List ℕ
  pub errors_by_type : Dict ℕ

abbrev pub no_metrics : ProviderMetrics
no_metrics = record {
  total_requests = 0;
  successful_requests = 0;
  failed_requests = 0;
  tokens_in = 0;
  tokens_out = 0;
  tokens_cache = 0;
  total_duration_ms = 0;
  total_ttft_ms = 0;
  durations = [];
  ttfts = [];
  errors_by_type = [];
}

pub record MetricsStore : Type 0 where
  pub max_records : ℕ
  pub records : List RequestRecord
  pub last_cleanup : ℕ

abbrev pub new_store : ℕ → ℕ → MetricsStore
new_store now max_records = record { max_records = max_records; records = []; last_cleanup = now }

-- `xs[-n:]`, which is all of `xs` if n is 0
unfoldable pub last_of : ℕ → List RequestRecord → List RequestRecord
last_of n xs = if n == 0 then xs else drop (length xs - n) xs

-- `r.timestamp >= now - window`
abbrev pub is_within : ℕ → ℕ → RequestRecord → Bool
is_within now window r = leb now (r.timestamp + window)

-- `_cleanup`, at most once a minute
unfoldable pub cleanup : ℕ → MetricsStore → MetricsStore
cleanup now s =
    if ltb now (s.last_cleanup + seconds 60)
    then s
    else record s { last_cleanup = now; records = filter (is_within now (hours 1)) s.records }

unfoldable pub append_record : MetricsStore → RequestRecord → MetricsStore
unfolding last_of
append_record s r =
    let records = s.records ++ r ∷ [] in
    record s {
      records =
          if ltb s.max_records (length records) then last_of s.max_records records else records;
    }

unfoldable pub record_request : ℕ → MetricsStore → RequestRecord → MetricsStore
unfolding append_record cleanup
record_request now s r = cleanup now (append_record s r)

unfoldable pub window_records : ℕ → MetricsStore → ℕ → List RequestRecord
window_records now s window = filter (is_within now window) s.records

-- `if r.error_type: errors_by_type[r.error_type] += 1`
unfoldable pub count_error : Option String → Dict ℕ → Dict ℕ
count_error none errors = errors
count_error (some t) errors =
    if str_eq t "" then errors else put errors t (suc (or_else (get errors t) 0))

-- `error_type not in NON_PENALIZING_ERROR_TYPES`
unfoldable pub is_penalizing : Option String → Bool
is_penalizing none = true
is_penalizing (some t) = if elem t non_penalizing_error_types then false else true

unfoldable pub accumulate : ProviderMetrics → RequestRecord → ProviderMetrics
unfolding count_error is_penalizing
accumulate pm r = record {
  total_requests = suc pm.total_requests;
  successful_requests = if r.success then suc pm.successful_requests else pm.successful_requests;
  failed_requests =
      if r.success
      then pm.failed_requests
      else if is_penalizing r.error_type
      then suc pm.failed_requests
      else pm.failed_requests;
  tokens_in = pm.tokens_in + r.tokens_in;
  tokens_out = pm.tokens_out + r.tokens_out;
  tokens_cache = pm.tokens_cache + r.tokens_cache;
  total_duration_ms = pm.total_duration_ms + r.duration_ms;
  total_ttft_ms = pm.total_ttft_ms + r.ttft_ms;
  durations = pm.durations ++ r.duration_ms ∷ [];
  ttfts = pm.ttfts ++ r.ttft_ms ∷ [];
  errors_by_type = count_error r.error_type pm.errors_by_type;
}

unfoldable pub accumulate_all : ProviderMetrics → List RequestRecord → ProviderMetrics
accumulate_all pm [] = pm
accumulate_all pm (r ∷ rs) = accumulate_all (accumulate pm r) rs

-- The loop of `_aggregate`
unfoldable pub aggregate_from : Dict ProviderMetrics → List RequestRecord → Dict ProviderMetrics
aggregate_from d [] = d
aggregate_from d (r ∷ rs) =
    aggregate_from (put d r.provider (accumulate (or_else (get d r.provider) no_metrics) r)) rs

unfoldable pub aggregate : List RequestRecord → Dict ProviderMetrics
aggregate = aggregate_from []

-- `xs[i]`, 0 out of range, where the code never reads
unfoldable pub item : List ℕ → ℕ → ℕ
item xs i = elim (drop i xs) [ [] ↦ 0 | x ∷ _ ↦ x ]

unfoldable pub p95_latency_ms : ProviderMetrics → ℕ
unfolding item
p95_latency_ms pm =
    let n = length pm.durations in
    if n == 0 then 0 else item (sort ltb pm.durations) (min (n * 95 / 100) (n - 1))

-- What `get_provider_stats` computes its answer from, nothing if there is no request of the provider.
unfoldable pub provider_metrics : ℕ → MetricsStore → String → ℕ → Option ProviderMetrics
unfolding window_records aggregate
provider_metrics now s provider window =
    get (aggregate (filter (λ r. str_eq r.provider provider) (window_records now s window)))
      provider
