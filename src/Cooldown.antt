-- ===== src/Cooldown.antt =====
-- cooldown.py: `CooldownCalculator`. The jitter that `random.uniform` draws is an argument, in
-- millionths, and so is the present instant.
use Prim.Native.String.{◌++◌ as append}
use text.Mathlib.Text.{starts_with}
use provider_health_daemon.Base.{
  ℕ, ◌+◌, ◌-◌, ◌*◌, ◌/◌, ◌^◌, min, String, Bool, true, false, ◌&&◌, Option, none, some, List, [],
  ◌∷◌, ltb, leb, if◌then◌else◌, or_else, elem, any,
}
use provider_health_daemon.Clock.{
  Stamp, at, malformed, seconds, minutes, hours, days, year_1970, year_2101,
}
pub mod Permanence
pub mod Bounds

abbrev pub rate_limit_types : List String
rate_limit_types =
    "generic_429" ∷ "rate_limit_rpm" ∷ "rate_limit_until" ∷ "rate_limit_tpd" ∷ "gateway_quota"
    ∷ "daily_free_exhausted" ∷ "daily_quota_exceeded" ∷ "worker_request_limit" ∷ "weekly_limit"
    ∷ "monthly_limit" ∷ []

abbrev pub request_scoped_types : List String
request_scoped_types = "context_length" ∷ "max_tokens_exceeded" ∷ "input_too_long" ∷ []

abbrev pub transport_types : List String
transport_types =
    "fetch_failed" ∷ "connect_timeout" ∷ "timeout" ∷ "provider_unavailable" ∷ "unknown_500"
    ∷ "generic_500" ∷ []

pub record Calculator : Type 0 where
  pub max_cooldown : ℕ
  pub max_failures : ℕ

-- The keys `hours`, `minutes` and `type`, each with the default of its `get`.
pub record Fields : Type 0 where
  pub hours : Option ℕ
  pub minutes : Option ℕ
  pub type : Option String

-- A parsed error: the fields are nested under `cooldown`, or stand flat beside the flags.
pub record ErrorInfo : Type 0 where
  pub cooldown : Option Fields
  pub flat : Fields
  pub permanent : Bool
  pub model_specific : Bool
  pub recheck : Bool
  pub global : Bool

unfoldable pub fields : ErrorInfo → Fields
fields e = or_else e.cooldown e.flat

unfoldable pub error_type : ErrorInfo → String
error_type e = or_else (fields e).type "unknown"

unfoldable pub base_duration : ErrorInfo → ℕ
base_duration e = hours (or_else (fields e).hours 0) + minutes (or_else (fields e).minutes 0)

-- `until` is none for `None`, `duration` is none for infinity.
pub record Result : Type 0 where
  pub until : Option ℕ
  pub duration : Option ℕ
  pub type : String
  pub permanent : Bool
  pub model_specific : Bool
  pub backoff_applied : Bool
  pub failures : ℕ
  pub recheck : Bool

-- The argument `current_cooldown_until`, by its dynamic type: `None`, a text, or a `datetime`.
pub data CurrentUntil : Type 0 where
  absent : CurrentUntil
  iso : Stamp → CurrentUntil
  datetime : ℕ → CurrentUntil

unfoldable pub is_transport : ErrorInfo → Bool
is_transport e = elem (error_type e) transport_types

unfoldable pub is_rate_limit : ErrorInfo → Bool
is_rate_limit e = elem (error_type e) rate_limit_types

unfoldable pub is_request_scoped : ErrorInfo → Bool
is_request_scoped e = any (λ t. starts_with (error_type e) t) request_scoped_types

-- Provider fetch and connect failures: 30 seconds, then 60.
unfoldable pub transport_result : ℕ → ErrorInfo → ℕ → Result
transport_result now e failures =
    let counted = min failures 2 in
    let base = if leb counted 1 then seconds 30 else seconds 60 in
    record {
      until = some (now + base);
      duration = some base;
      type = error_type e;
      permanent = false;
      model_specific = e.model_specific;
      backoff_applied = ltb 1 counted;
      failures = counted;
      recheck = true;
    }

abbrev pub max_failures_type : ErrorInfo → String
max_failures_type e = append (error_type e) " (max_failures)"

-- The branch `failures >= self.max_failures`.
unfoldable pub exhausted_result : Calculator → ℕ → ErrorInfo → ℕ → Result
exhausted_result calc now e failures =
    if is_rate_limit e
    then record {
      until = some (now + calc.max_cooldown);
      duration = some calc.max_cooldown;
      type = max_failures_type e;
      permanent = false;
      model_specific = e.model_specific;
      backoff_applied = false;
      failures = failures;
      recheck = false;
    }
    else if is_request_scoped e
    then record {
      until = some (now + seconds 120);
      duration = some (seconds 120);
      type = max_failures_type e;
      permanent = false;
      model_specific = e.model_specific;
      backoff_applied = false;
      failures = failures;
      recheck = true;
    }
    else record {
      until = none;
      duration = none;
      type = max_failures_type e;
      permanent = true;
      model_specific = e.model_specific;
      backoff_applied = false;
      failures = failures;
      recheck = false;
    }

unfoldable pub permanent_result : ErrorInfo → ℕ → Result
permanent_result e failures = record {
  until = none;
  duration = none;
  type = error_type e;
  permanent = true;
  model_specific = e.model_specific;
  backoff_applied = false;
  failures = failures;
  recheck = false;
}

-- Doubling with each failure after the first, under the cap.
unfoldable pub backoff : Calculator → ℕ → ℕ → ℕ
backoff calc base failures =
    if ltb 1 failures then min (base * 2 ^ min (failures - 1) 30) calc.max_cooldown else base

unfoldable pub at_least_30s : ℕ → ℕ
at_least_30s d = if ltb 0 d && ltb d (seconds 30) then seconds 30 else d

-- `timedelta(seconds=int(d.total_seconds() * jitter))`
unfoldable pub jittered : ℕ → ℕ → ℕ
jittered jitter d = seconds (d * jitter / seconds 1_000_000)

-- `datetime.fromisoformat` of a `datetime` raises `TypeError`, which is caught.
unfoldable pub longer_until : CurrentUntil → ℕ → ℕ
longer_until absent until = until
longer_until (iso (at existing)) until = if ltb until existing then existing else until
longer_until (iso malformed) until = until
longer_until (datetime existing) until = until

unfoldable pub backoff_result : Calculator → ℕ → ℕ → ErrorInfo → ℕ → CurrentUntil → Result
backoff_result calc now jitter e failures current =
    let base = base_duration e in
    let raised = backoff calc base failures in
    let final = jittered jitter (at_least_30s raised) in
    record {
      until = some (longer_until current (now + final));
      duration = some final;
      type = error_type e;
      permanent = false;
      model_specific = e.model_specific;
      backoff_applied = ltb 1 failures && ltb base raised;
      failures = failures;
      recheck = e.recheck;
    }

unfoldable pub calculate : Calculator → ℕ → ℕ → ErrorInfo → ℕ → CurrentUntil → Result
unfolding transport_result exhausted_result permanent_result backoff_result
calculate calc now jitter e current_failures current =
    let failures = current_failures + 1 in
    if is_transport e
    then transport_result now e failures
    else if leb calc.max_failures failures
    then exhausted_result calc now e failures
    else if e.permanent
    then permanent_result e failures
    else backoff_result calc now jitter e failures current

unfoldable pub is_expired : ℕ → Option Stamp → Bool
is_expired now none = false
is_expired now (some malformed) = true
is_expired now (some (at until)) =
    if ltb until year_1970 then true else if leb year_2101 until then true else leb until now

-- `none` is `timedelta.max`.
unfoldable pub time_remaining : ℕ → Option Stamp → Option ℕ
time_remaining now none = none
time_remaining now (some malformed) = some 0
time_remaining now (some (at until)) =
    if ltb until year_1970
    then some 0
    else if leb year_2101 until
    then some 0
    else if ltb (days 365) (until - now)
    then some 0
    else some (until - now)
