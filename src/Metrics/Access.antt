-- ===== src/Metrics/Access.antt =====
-- metrics_store.py: `get_access_errors`, the errors that a lost account stands for.
use provider_health_daemon.Base.{
  ℕ, suc, ◌+◌, ◌≡◌, refl, ◌∙◌, String, Bool, false, Option, none, some, List, [], ◌∷◌, ◌++◌,
  if◌then◌else◌, ltb, elem, filter, length, sum_by, or_else, arith,
}
use provider_health_daemon.Base.Dict.{Dict, get, put, values, sum_by-put_else}
use provider_health_daemon.Metrics.{RequestRecord, MetricsStore, window_records}

abbrev pub access_error_types : List String
access_error_types =
    "subscription_level" ∷ "no_credit" ∷ "no_credentials" ∷ "payment_required" ∷ "paid_required"
    ∷ "auth_invalid" ∷ "invalid_subscription" ∷ "monthly_limit" ∷ "daily_free_exhausted" ∷ []

pub record AccessEntry : Type 0 where
  pub total : ℕ
  pub types : Dict ℕ
  pub last_seen : ℕ
  pub models : List String

abbrev pub no_access_errors : AccessEntry
no_access_errors = record { total = 0; types = []; last_seen = 0; models = [] }

abbrev is_access_type : Option String → Bool
is_access_type none = false
is_access_type (some t) = elem t access_error_types

unfoldable pub is_access_error : RequestRecord → Bool
is_access_error r = is_access_type r.error_type

abbrev count_type : Option String → Dict ℕ → Dict ℕ
count_type none types = types
count_type (some t) types = put types t (suc (or_else (get types t) 0))

unfoldable pub add_access_error : AccessEntry → RequestRecord → AccessEntry
add_access_error e r = record {
  total = suc e.total;
  types = count_type r.error_type e.types;
  last_seen = if ltb e.last_seen r.timestamp then r.timestamp else e.last_seen;
  models = if elem r.model e.models then e.models else e.models ++ r.model ∷ [];
}

unfoldable pub by_provider : Dict AccessEntry → List RequestRecord → Dict AccessEntry
unfolding add_access_error
by_provider d [] = d
by_provider d (r ∷ rs) =
    by_provider
      (put d r.provider (add_access_error (or_else (get d r.provider) no_access_errors) r)) rs

-- The total, the number of providers, and the entries.
unfoldable pub get_access_errors : ℕ → MetricsStore → ℕ → ℕ × ℕ × Dict AccessEntry
unfolding is_access_error by_provider filter
get_access_errors now s window =
    let found = filter is_access_error (window_records now s window) in
    let entries = by_provider [] found in (length found, length entries, entries)

by_provider-total :
    (d : Dict AccessEntry) (rs : List RequestRecord)
    → sum_by (λ (e : AccessEntry). e.total) (values (by_provider d rs))
      ≡ sum_by (λ (e : AccessEntry). e.total) (values d) + length rs
unfolding by_provider
by_provider-total d [] = omega arith
by_provider-total d (r ∷ rs) =
    let e = or_else (get d r.provider) no_access_errors in
    omega (
      arith,
      by_provider-total (put d r.provider (add_access_error e r)) rs,
      sum_by-put_else (λ (e : AccessEntry). e.total) d r.provider (add_access_error e r)
          no_access_errors refl,
    )

-- The totals of the providers add up to the total that is reported.
pub get_access_errors-total :
    (now : ℕ) (s : MetricsStore) (window : ℕ)
    → sum_by (λ (e : AccessEntry). e.total) (values (get_access_errors now s window).2)
      ≡ (get_access_errors now s window).0
unfolding get_access_errors sum_by
get_access_errors-total now s window =
    by_provider-total [] (filter is_access_error (window_records now s window)) ∙ omega arith
