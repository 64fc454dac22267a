-- ===== src/ErrorParser.antt =====
-- error_parser.py: durations, retry hints, and what an error is after them. The regular expressions and
-- the JSON reader are a `Reader`, an argument: what each pattern of `re` finds in a text, and what
-- `json.loads` makes of it. Fractions of seconds are counted in billionths.
use Prim.Native.String.{◌++◌ as append}
use text.Mathlib.Text.{starts_with}
use provider_health_daemon.Base.{
  ℕ, zero, suc, ◌+◌, ◌-◌, ◌*◌, ◌/◌, ◌%◌, min, max, String, Bool, true, false, not, ◌&&◌, ◌||◌,
  Option, none, some, List, [], ◌∷◌, if◌then◌else◌, ltb, or_else, elem, contains, str_eq,
}
use provider_health_daemon.Clock.{Stamp, at, malformed, minutes}
use provider_health_daemon.Cooldown.{ErrorInfo, Fields, fields}
pub mod Patterns
pub mod Parsing
pub mod Lines
pub mod Retries
pub mod Verdicts
pub mod Waits

pub data TimeUnit : Type 0 where
  h : TimeUnit
  m : TimeUnit
  s : TimeUnit

abbrev pub Span : Type 0
Span = List (ℕ × TimeUnit)

-- What a pattern captures: up to two numbers, and a time.
pub record Captured : Type 0 where
  pub first : ℕ
  pub second : ℕ
  pub stamp : Stamp

-- The values of the keys `retry_after`, `retryAfter` and `retry_after_seconds`, in billionths of a second,
-- none where they are no number.
pub record RetryKeys : Type 0 where
  pub retry_after : Option ℕ
  pub retry_camel : Option ℕ
  pub retry_seconds : Option ℕ

-- The value of the key `error`.
pub data ErrorValue : Type 0 where
  no_error : ErrorValue
  error_text : String → ErrorValue
  error_dict : RetryKeys → (message provider model : Option String) → ErrorValue

-- A JSON object.
pub record JsonBody : Type 0 where
  pub retry : RetryKeys
  pub provider : Option String
  pub model : Option String
  pub error : ErrorValue

pub record Reader : Type 0 where
  pub search : String → String → Option Captured
  pub json : String → Option JsonBody
  pub retry_phrase : String → Option Span
  pub quota_delay : String → Option Span
  pub quota_stamp : String → Option Stamp
  pub bracketed : String → Option (String × String)
  pub credentials : String → Option String

-- `_seconds_to_cooldown`: hours and minutes
unfoldable pub seconds_to_cooldown : ℕ → ℕ × ℕ
seconds_to_cooldown n = let at_least = max n 30 in (at_least / 3600, at_least % 3600 / 60)

-- The loop over the durations of a phrase.
abbrev pub unit_seconds : TimeUnit → ℕ
unit_seconds h = 3600
unit_seconds m = 60
unit_seconds s = 1

unfoldable pub span_seconds : Span → ℕ
span_seconds [] = 0
span_seconds ((n, unit) ∷ rest) = n * unit_seconds unit + span_seconds rest

abbrev pub positive : ℕ → Option ℕ
positive n = if ltb 0 n then some n else none

abbrev pub span_of : Option Span → Option ℕ
span_of none = none
span_of (some span) = positive (span_seconds span)

abbrev pub first_hit {ℓ} : {A : Type ℓ} → Option A → Option A → Option A
first_hit none b = b
first_hit (some a) b = some a

abbrev pub billion : ℕ
billion = 1_000_000_000

-- `int(val)` where `val > 0`
abbrev pub whole_seconds : Option ℕ → Option ℕ
whole_seconds none = none
whole_seconds (some n) = if ltb 0 n then some (n / billion) else none

unfoldable pub retry_of_keys : RetryKeys → Option ℕ
retry_of_keys k =
    first_hit (whole_seconds k.retry_after)
      (first_hit (whole_seconds k.retry_camel) (whole_seconds k.retry_seconds))

abbrev pub retry_of_error : ErrorValue → Option ℕ
retry_of_error no_error = none
retry_of_error (error_text t) = none
retry_of_error (error_dict k message provider model) = retry_of_keys k

-- `_extract_quota_reset_seconds`
abbrev pub stamp_remaining : ℕ → Option Stamp → Option ℕ
stamp_remaining now none = none
stamp_remaining now (some malformed) = none
stamp_remaining now (some (at t)) = if ltb now t then some ((t - now) / 1_000_000) else none

unfoldable pub extract_quota_reset_seconds : Reader → ℕ → String → Option ℕ
extract_quota_reset_seconds r now body =
    if str_eq body ""
    then none
    else first_hit (whole_seconds (span_of (r.quota_delay body)))
        (stamp_remaining now (r.quota_stamp body))

abbrev pub retry_of_json : Reader → ℕ → String → Option JsonBody → Option ℕ
retry_of_json r now body none = none
retry_of_json r now body (some j) =
    first_hit (retry_of_keys j.retry)
      (first_hit (retry_of_error j.error) (extract_quota_reset_seconds r now body))

-- `_extract_retry_after_seconds`
unfoldable pub extract_retry_after_seconds : Reader → ℕ → String → Option ℕ
extract_retry_after_seconds r now body =
    if str_eq body ""
    then none
    else first_hit (span_of (r.retry_phrase body)) (retry_of_json r now body (r.json body))

-- The dictionary that a pattern's handler answers, with the flags that it leaves out.
abbrev pub flat_error : Option ℕ → Option ℕ → String → ErrorInfo
flat_error hours minutes type = record {
  cooldown = none;
  flat = record { hours = hours; minutes = minutes; type = some type };
  permanent = false;
  model_specific = false;
  recheck = false;
  global = false;
}

-- `_iso_rate_limit`: until a time, in whole minutes
unfoldable pub iso_rate_limit : ℕ → Stamp → ErrorInfo
iso_rate_limit now malformed = record (flat_error (some 1) (some 0) "rate_limit_until") {
  recheck = true;
}
iso_rate_limit now (at t) =
    let total = max ((t - now) / minutes 1) 5 in
    record (flat_error (some (min (total / 60) 24)) (some (total % 60)) "rate_limit_until") {
      recheck = true;
    }
