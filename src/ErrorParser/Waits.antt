-- ===== src/ErrorParser/Waits.antt =====
-- error_parser.py: how long an error with a retry hint waits, as the calculator of cooldowns reads it.
use provider_health_daemon.Base.{ℕ, ◌+◌, max, ◌≤◌, ◌<◌, ◌≡◌, false, some, elem, arith}
use provider_health_daemon.Clock.{seconds, minutes}
use provider_health_daemon.Cooldown.{ErrorInfo, base_duration}
use provider_health_daemon.ErrorParser.Parsing.{
  structural_types, apply_retry, type_text, cooldown_minutes,
}
use provider_health_daemon.ErrorParser.Retries.{apply_retry_lem}

base_duration-minutes : (e : ErrorInfo) → base_duration e ≡ minutes (cooldown_minutes e)
unfolding base_duration
base_duration-minutes e = omega arith

-- The cooldown of an error that is neither permanent nor of a structural type, once a retry hint is applied,
-- is the hint, or 30 seconds where that is less, rounded down to whole minutes.
pub base_duration-apply_retry :
    (e : ErrorInfo) (n : ℕ)
    → e.permanent ≡ false
    → elem (type_text e) structural_types ≡ false
    → (base_duration (apply_retry e (some n)) ≤ seconds (max n 30))
      × (seconds (max n 30) < base_duration (apply_retry e (some n)) + minutes 1)
      × (n < 60 → base_duration (apply_retry e (some n)) ≡ 0)
base_duration-apply_retry e n p t =
    let d = base_duration-minutes (apply_retry e (some n)) in
    let h = (apply_retry_lem e n).2 p t in (omega arith, omega arith, λ k. omega arith)
