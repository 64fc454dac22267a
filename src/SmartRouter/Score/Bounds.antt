-- ===== src/SmartRouter/Score/Bounds.antt =====
-- smart_router.py: how a score moves with what is known of a provider.
use provider_health_daemon.Base.{
  ℕ, ◌+◌, ◌*◌, ◌/◌, ◌≤◌, ◌<◌, min, String, some, ◌≡◌, arith, ◌==◌, inl, inr, Bool-cases, ==_iff,
}
use provider_health_daemon.Base.Rounding.{Ties, round_div}
use provider_health_daemon.SmartRouter.Score.{
  Stats, error_penalty, access_count, access_penalty, latency_penalty, fail_penalty, raw_score,
  base_priority, compute_score,
}

round_div_between :
    (ties : Ties) (n : ℕ)
    → (n / 100 ≤ round_div ties n 100)
      × (round_div ties n 100 ≤ n / 100 + 1)
      × (round_div ties n 100 * 100 ≤ n + 50)
unfolding round_div
round_div_between ties n = ground arith

round_div_lt :
    (ties : Ties) (m n : ℕ)
    → m < n
    → m / 100 ≡ n / 100
    → round_div ties m 100 ≤ round_div ties n 100
unfolding round_div
round_div_lt ties m n h e = ground arith

-- The nearest whole number of hundreds never goes down.
round_div_mono : (ties : Ties) (m n : ℕ) → m ≤ n → round_div ties m 100 ≤ round_div ties n 100
round_div_mono ties m n h = elim (Bool-cases (m == n)) [
  | inl e ↦ let same : m ≡ n = (==_iff m n).0 e in rw same (omega arith)
  | inr e ↦ elim (Bool-cases (m / 100 == n / 100)) [
    | inl k ↦ round_div_lt ties m n (ground arith) (ground arith)
    | inr k ↦
        let d : m / 100 + 1 ≤ n / 100 = ground arith in
        omega (arith, (round_div_between ties m).1, (round_div_between ties n).0)
  ]
]

access_penalty_least : (n : ℕ) → 0 < n → 300_000 ≤ access_penalty n
unfolding access_penalty
access_penalty_least n h = ground arith

error_penalty_mono : (m n : ℕ) → m ≤ n → error_penalty m ≤ error_penalty n
unfolding error_penalty
error_penalty_mono m n h = ground arith

access_penalty_mono : (m n : ℕ) → m ≤ n → access_penalty m ≤ access_penalty n
unfolding access_penalty
access_penalty_mono m n h = ground arith

-- The second is at least as slow and fails at least as often, over as many requests.
pub record IsWorse (s t : Stats) : Type 0 where
  pub requests : s.total_requests ≡ t.total_requests
  pub rate : s.error_rate ≤ t.error_rate
  pub access : access_count s.errors_by_type ≤ access_count t.errors_by_type
  pub mean : s.avg_latency_ms ≤ t.avg_latency_ms
  pub tail : s.p95_latency_ms ≤ t.p95_latency_ms
  pub failures : s.failed ≤ t.failed

latency_penalty_mono : (s t : Stats) → IsWorse s t → latency_penalty s ≤ latency_penalty t
unfolding latency_penalty
latency_penalty_mono s t w = ground arith

fail_penalty_mono : (s t : Stats) → IsWorse s t → fail_penalty s ≤ fail_penalty t
unfolding fail_penalty
fail_penalty_mono s t w = ground arith

raw_score_mono :
    (base : ℕ) (s t : Stats) → IsWorse s t → raw_score base (some s) ≤ raw_score base (some t)
unfolding raw_score
raw_score_mono base s t w = omega (
  arith,
  error_penalty_mono s.error_rate t.error_rate w.rate,
  access_penalty_mono (access_count s.errors_by_type) (access_count t.errors_by_type) w.access,
  latency_penalty_mono s t w,
  fail_penalty_mono s t w,
)

-- A score never goes down when the same requests were slower or failed more often.
pub compute_score_mono :
    (ties : Ties) (provider : String) (s t : Stats)
    → IsWorse s t
    → compute_score ties provider (some s) ≤ compute_score ties provider (some t)
unfolding compute_score
compute_score_mono ties provider s t w =
    let h = raw_score_mono (base_priority provider) s t w in
    round_div_mono ties (min (raw_score (base_priority provider) (some s)) 999_000)
      (min (raw_score (base_priority provider) (some t)) 999_000) (omega arith)

raw_score_least :
    (base : ℕ) (s : Stats) → 0 < access_count s.errors_by_type → 300_000 ≤ raw_score base (some s)
unfolding raw_score
raw_score_least base s h = omega (arith, access_penalty_least (access_count s.errors_by_type) h)

capped_bounds :
    (ties : Ties) (n : ℕ)
    → 300_000 ≤ n
    → (3_000 ≤ round_div ties (min n 999_000) 100) × (round_div ties (min n 999_000) 100 ≤ 9_990)
capped_bounds ties n h = omega (arith, round_div_between ties (min n 999_000))

-- A score is at most 999, and one error of a kind that stands for a lost account alone makes it at
-- least 300.
pub compute_score_bounds :
    (ties : Ties) (provider : String) (s : Stats)
    → 0 < access_count s.errors_by_type
    → (3_000 ≤ compute_score ties provider (some s))
      × (compute_score ties provider (some s) ≤ 9_990)
unfolding compute_score
compute_score_bounds ties provider s h =
    capped_bounds ties (raw_score (base_priority provider) (some s))
      (raw_score_least (base_priority provider) s h)
