-- ===== src/Metrics/Windows.antt =====
-- metrics_store.py: what the limit and the cleanup do to the window of a query.
use provider_health_daemon.Base.{
  ℕ, zero, suc, ◌+◌, ◌-◌, ◌≤◌, Bool, true, List, [], ◌∷◌, ◌++◌, ◌≡◌, refl, filter, ltb, length,
  drop, length-filter-le, arith, Bool-cases, inl, inr,
}
use provider_health_daemon.Clock.{seconds, hours}
use provider_health_daemon.Metrics.{
  RequestRecord, MetricsStore, is_within, cleanup, last_of, append_record, record_request,
  window_records,
}

filter-filter :
    (p q : RequestRecord → Bool) (xs : List RequestRecord)
    → ((r : RequestRecord) → p r ≡ true → q r ≡ true)
    → filter p (filter q xs) ≡ filter p xs
unfolding filter
filter-filter p q [] h = refl
filter-filter p q (x ∷ xs) h = ground (arith, filter-filter p q xs h, h x)

-- A cleanup never changes what a query sees at the same instant or later, if the query's window is
-- one hour at most.
pub window_records-cleanup :
    (now later window : ℕ) (s : MetricsStore)
    → now ≤ later
    → window ≤ hours 1
    → window_records later (cleanup now s) window ≡ window_records later s window
unfolding window_records cleanup
window_records-cleanup now later window s h k =
    elim (Bool-cases (ltb now (s.last_cleanup + seconds 60))) [
      | inl e ↦ rw e refl
      | inr e ↦ rw e (filter-filter _ _ s.records (λ r w. ground arith))
    ]

length-drop : (n : ℕ) (xs : List RequestRecord) → length (drop n xs) ≡ length xs - n
length-drop zero xs = omega arith
length-drop (suc n) [] = omega arith
length-drop (suc n) (x ∷ xs) = omega (arith, length-drop n xs)

length-append_record :
    (s : MetricsStore) (r : RequestRecord)
    → 1 ≤ s.max_records
    → length (append_record s r).records ≤ s.max_records
unfolding append_record last_of
length-append_record s r h =
    let records = s.records ++ r ∷ [] in
    ground (arith, length-drop (length records - s.max_records) records)

-- After a request was recorded, the store holds no more records than its limit, whatever it held
-- before, if the limit is positive.
pub length-record_request :
    (now : ℕ) (s : MetricsStore) (r : RequestRecord)
    → 1 ≤ s.max_records
    → length (record_request now s r).records ≤ s.max_records
unfolding record_request cleanup
length-record_request now s r h =
    let appended = length-append_record s r h in
    ground (arith, length-filter-le (is_within now (hours 1)) (append_record s r).records)
