-- ===== src/Metrics/Totals.antt =====
-- metrics_store.py: the statistics over all providers.
use provider_health_daemon.Base.{
  ℕ, ◌+◌, ◌≡◌, refl, ◌∙◌, List, [], ◌∷◌, if◌then◌else◌, sum_by, or_else, arith, length,
}
use provider_health_daemon.Base.Dict.{Dict, get, put, values, sum_by-put_else}
use provider_health_daemon.Base.Rounding.{Ties}
use provider_health_daemon.Metrics.{
  RequestRecord, ProviderMetrics, MetricsStore, no_metrics, accumulate, aggregate_from, aggregate,
  window_records,
}
use provider_health_daemon.Metrics.Sums.{counts_against}
use provider_health_daemon.Metrics.Reports.{global_stats, get_all_stats}

-- Each record adds its share to one provider, so the providers together have the shares of all.
module _ (f : ProviderMetrics → ℕ) (share : RequestRecord → ℕ) (nothing : f no_metrics ≡ 0)
    (step : (pm : ProviderMetrics) (r : RequestRecord) → f (accumulate pm r) ≡ f pm + share r) where
  aggregate_from-sum :
      (d : Dict ProviderMetrics) (rs : List RequestRecord)
      → sum_by f (values (aggregate_from d rs)) ≡ sum_by f (values d) + sum_by share rs
  unfolding aggregate_from sum_by
  aggregate_from-sum d [] = omega arith
  aggregate_from-sum d (r ∷ rs) =
      let pm = or_else (get d r.provider) no_metrics in
      omega (
        arith,
        step pm r,
        aggregate_from-sum (put d r.provider (accumulate pm r)) rs,
        sum_by-put_else f d r.provider (accumulate pm r) no_metrics nothing,
      )

  aggregate-sum : (rs : List RequestRecord) → sum_by f (values (aggregate rs)) ≡ sum_by share rs
  unfolding aggregate sum_by
  aggregate-sum rs = aggregate_from-sum [] rs ∙ omega arith

total_step :
    (pm : ProviderMetrics) (r : RequestRecord)
    → (accumulate pm r).total_requests ≡ pm.total_requests + 1
unfolding accumulate
total_step pm r = omega arith

successful_step :
    (pm : ProviderMetrics) (r : RequestRecord)
    → (accumulate pm r).successful_requests ≡ pm.successful_requests + (if r.success then 1 else 0)
unfolding accumulate
successful_step pm r = ground arith

failed_step :
    (pm : ProviderMetrics) (r : RequestRecord)
    → (accumulate pm r).failed_requests ≡ pm.failed_requests + (if counts_against r then 1 else 0)
unfolding accumulate counts_against
failed_step pm r = ground arith

sum_of_ones : (rs : List RequestRecord) → sum_by (λ r. 1) rs ≡ length rs
unfolding sum_by
sum_of_ones [] = refl
sum_of_ones (r ∷ rs) = omega (arith, sum_of_ones rs)

-- The global statistics count every record of the window once, whatever its provider: all of them, the
-- successful ones, and those that failed and count against their provider.
pub get_all_stats-counts :
    (ties : Ties) (now : ℕ) (s : MetricsStore) (window : ℕ)
    → ((get_all_stats ties now s window).2.total_requests ≡ (get_all_stats ties now s window).0)
      × ((get_all_stats ties now s window).2.successful
          ≡ sum_by
              (λ (r : RequestRecord). if r.success then 1 else 0)
              (window_records now s window))
      × ((get_all_stats ties now s window).2.failed
          ≡ sum_by (λ r. if counts_against r then 1 else 0) (window_records now s window))
unfolding get_all_stats global_stats
get_all_stats-counts ties now s window =
    let rs = window_records now s window in
    (
      aggregate-sum (λ (pm : ProviderMetrics). pm.total_requests) (λ r. 1) refl total_step rs
          ∙ sum_of_ones rs,
      aggregate-sum (λ (pm : ProviderMetrics). pm.successful_requests)
          (λ (r : RequestRecord). if r.success then 1 else 0) refl successful_step rs,
      aggregate-sum (λ (pm : ProviderMetrics). pm.failed_requests)
          (λ r. if counts_against r then 1 else 0) refl failed_step rs,
    )
