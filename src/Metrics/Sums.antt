-- ===== src/Metrics/Sums.antt =====
-- metrics_store.py: the sums by provider.
use provider_health_daemon.Base.{
  ℕ, suc, ◌+◌, String, Bool, true, false, Option, some, List, [], ◌∷◌, ◌≡◌, refl, ap, ◌∙◌,
  if◌then◌else◌, filter, str_eq, or_else, length, arith, Bool-cases, inl, inr, eq_iff,
}
use provider_health_daemon.Base.Dict.{Dict, get, put, get-put, get-empty}
use provider_health_daemon.Metrics.{
  RequestRecord, ProviderMetrics, no_metrics, accumulate, accumulate_all, aggregate_from, aggregate,
  is_penalizing,
}

-- The metrics of a provider, the empty ones if it has none.
abbrev pub metrics_of : Dict ProviderMetrics → String → ProviderMetrics
metrics_of d p = or_else (get d p) no_metrics

or_else_if :
    (b : Bool) (x d : ProviderMetrics) (o : Option ProviderMetrics)
    → or_else (if b then some x else o) d ≡ (if b then x else or_else o d)
or_else_if true x d o = refl
or_else_if false x d o = refl

metrics_of-put :
    (d : Dict ProviderMetrics) (k p : String) (m : ProviderMetrics)
    → metrics_of (put d k m) p ≡ (if str_eq k p then m else metrics_of d p)
metrics_of-put d k p m =
    ap (λ o. or_else o no_metrics) (get-put d k p m)
    ∙ or_else_if (str_eq k p) m no_metrics (get d p)

aggregate_from-filter :
    (d : Dict ProviderMetrics) (rs : List RequestRecord) (p : String)
    → metrics_of (aggregate_from d rs) p
      ≡ accumulate_all (metrics_of d p) (filter (λ r. str_eq r.provider p) rs)
unfolding aggregate_from accumulate_all filter
aggregate_from-filter d [] p = refl
aggregate_from-filter d (r ∷ rs) p =
    let m = accumulate (metrics_of d r.provider) r in
    aggregate_from-filter (put d r.provider m) rs p
    ∙ ap (λ x. accumulate_all x (filter (λ q. str_eq q.provider p) rs))
        (metrics_of-put d r.provider p m)
    ∙ elim (Bool-cases (str_eq r.provider p)) [
      | inl e ↦ rw e (
          ap
            (λ k.
              accumulate_all (accumulate (metrics_of d k) r) (filter (λ q. str_eq q.provider p) rs))
            ((eq_iff r.provider p).0 e))
      | inr e ↦ rw e refl
    ]

-- The metrics of a provider in the aggregate are those of its own records alone, in their order.
pub aggregate-filter :
    (rs : List RequestRecord) (p : String)
    → metrics_of (aggregate rs) p ≡ accumulate_all no_metrics (filter (λ r. str_eq r.provider p) rs)
unfolding aggregate
aggregate-filter rs p =
    aggregate_from-filter [] rs p
    ∙ ap (λ o. accumulate_all (or_else o no_metrics) (filter (λ r. str_eq r.provider p) rs))
        (get-empty {V = ProviderMetrics} p)

-- A failure that counts against the provider.
unfoldable pub counts_against : RequestRecord → Bool
counts_against r = if r.success then false else is_penalizing r.error_type

count_step :
    (b : Bool) (n : ℕ) (r : RequestRecord) (kept : List RequestRecord)
    → (if b then suc n else n) + length kept ≡ n + length (if b then r ∷ kept else kept)
count_step b n r kept = ground arith

failed_step :
    (pm : ProviderMetrics) (r : RequestRecord)
    → (accumulate pm r).failed_requests
      ≡ (if counts_against r then suc pm.failed_requests else pm.failed_requests)
unfolding accumulate counts_against
failed_step pm r = elim (Bool-cases r.success) [ inl e ↦ rw e refl | inr e ↦ rw e refl ]

total_step :
    (pm : ProviderMetrics) (r : RequestRecord) (n : ℕ)
    → (accumulate pm r).total_requests + n ≡ pm.total_requests + suc n
unfolding accumulate
total_step pm r n = omega arith

successful_step :
    (pm : ProviderMetrics) (r : RequestRecord) (rs : List RequestRecord)
    → (accumulate pm r).successful_requests + length (filter (λ q. q.success) rs)
      ≡ pm.successful_requests + length (filter (λ q. q.success) (r ∷ rs))
unfolding accumulate filter
successful_step pm r rs = count_step r.success pm.successful_requests r (filter (λ q. q.success) rs)

-- The requests, the successes and the failures are those of the records, in number; a failure that
-- the client caused counts as a request only.
pub accumulate_all-counts :
    (pm : ProviderMetrics) (rs : List RequestRecord)
    → ((accumulate_all pm rs).total_requests ≡ pm.total_requests + length rs)
      × ((accumulate_all pm rs).successful_requests
          ≡ pm.successful_requests + length (filter (λ r. r.success) rs))
      × ((accumulate_all pm rs).failed_requests
          ≡ pm.failed_requests + length (filter counts_against rs))
unfolding accumulate_all filter
accumulate_all-counts pm [] = (omega arith, omega arith, omega arith)
accumulate_all-counts pm (r ∷ rs) =
    let (total, successful, failed) = accumulate_all-counts (accumulate pm r) rs in
    (
      total ∙ total_step pm r (length rs),
      successful ∙ successful_step pm r rs,
      failed
          ∙ ap (λ n. n + length (filter counts_against rs)) (failed_step pm r)
          ∙ count_step (counts_against r) pm.failed_requests r (filter counts_against rs),
    )
