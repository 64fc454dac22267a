-- ===== src/Usage.antt =====
-- daily_usage.py: the requests and tokens of today by provider, from the events that access_parser.py
-- reads out of the lines of the log, and the cache of them that the smart router asks.
use provider_health_daemon.Base.{
  ℕ, suc, ◌+◌, ◌≡◌, refl, String, Bool, true, false, Option, none, some, List, [], ◌∷◌,
  if◌then◌else◌, ltb, sum_by, or_else, before, str_eq, arith,
}
use provider_health_daemon.Base.Dict.{Dict, get, put, values, sum_by-put_else}

pub data LogEvent : Type 0 where
  request : Option String → LogEvent
  done : ℕ → ℕ → ℕ → LogEvent
  other : LogEvent

pub record Usage : Type 0 where
  pub tokens : ℕ
  pub requests : ℕ

abbrev pub no_usage : Usage
no_usage = record { tokens = 0; requests = 0 }

abbrev or_default : String → String → String
or_default default s = if str_eq s "" then default else s

-- "github|user_01" is of the provider "github".
unfoldable pub provider_name : Option String → String
provider_name raw = or_default "unknown" (before b'|' (or_default "unknown" (or_else raw "")))

unfoldable pub add_request : Dict Usage → String → Dict Usage
add_request u provider =
    let entry = or_else (get u provider) no_usage in
    put u provider (record entry { requests = suc entry.requests })

unfoldable pub add_tokens : Dict Usage → String → ℕ → Dict Usage
add_tokens u provider n =
    let entry = or_else (get u provider) no_usage in
    put u provider (record entry { tokens = entry.tokens + n })

-- The loop over the lines: tokens go to the provider of the last request.
unfoldable pub usage_loop : Dict Usage → Option String → List LogEvent → Dict Usage
unfolding provider_name add_request add_tokens
usage_loop u last [] = u
usage_loop u last (request raw ∷ es) =
    usage_loop (add_request u (provider_name raw)) (some (provider_name raw)) es
usage_loop u none (done i o c ∷ es) = usage_loop u none es
usage_loop u (some provider) (done i o c ∷ es) =
    usage_loop (add_tokens u provider (i + o + c)) (some provider) es
usage_loop u last (other ∷ es) = usage_loop u last es

-- Another day than today has no usage, and so has a log that is not there.
unfoldable pub daily_provider_usage : Bool → Option (List LogEvent) → Dict Usage
unfolding usage_loop
daily_provider_usage false log = []
daily_provider_usage true none = []
daily_provider_usage true (some events) = usage_loop [] none events

pub record UsageCache : Type 0 where
  pub ttl : ℕ
  pub cached : Option (Dict Usage)
  pub cached_at : ℕ

-- `CachedProviderUsage.get`
abbrev read_again : ℕ → UsageCache → Dict Usage → UsageCache × Dict Usage
read_again now c fresh = (record c { cached = some fresh; cached_at = now }, fresh)

unfoldable pub get_usage : ℕ → Option (List LogEvent) → UsageCache → UsageCache × Dict Usage
unfolding daily_provider_usage
get_usage now log c = elim c.cached [
  | none ↦ read_again now c (daily_provider_usage true log)
  | some u ↦
      if ltb now (c.cached_at + c.ttl)
      then (c, u)
      else read_again now c (daily_provider_usage true log)
]

-- The requests that are in a log, and the tokens that come after a first request.
abbrev pub is_request : LogEvent → ℕ
is_request (request raw) = 1
is_request (done i o c) = 0
is_request other = 0

abbrev pub tokens_after : Option String → List LogEvent → ℕ
tokens_after last [] = 0
tokens_after last (request raw ∷ es) = tokens_after (some "") es
tokens_after none (done i o c ∷ es) = tokens_after none es
tokens_after (some p) (done i o c ∷ es) = i + o + c + tokens_after (some p) es
tokens_after last (other ∷ es) = tokens_after last es

tokens_after_any :
    (p q : String) (es : List LogEvent) → tokens_after (some p) es ≡ tokens_after (some q) es
tokens_after_any p q [] = refl
tokens_after_any p q (request raw ∷ es) = refl
tokens_after_any p q (done i o c ∷ es) = omega (arith, tokens_after_any p q es)
tokens_after_any p q (other ∷ es) = tokens_after_any p q es

module _ (u : Dict Usage) (p : String) where
  requests-add_request :
      sum_by (λ (e : Usage). e.requests) (values (add_request u p))
      ≡ sum_by (λ (e : Usage). e.requests) (values u) + 1
  unfolding add_request
  requests-add_request =
      let e = or_else (get u p) no_usage in
      omega (
        arith,
        sum_by-put_else (λ (x : Usage). x.requests) u p (record e { requests = suc e.requests })
            no_usage refl,
      )

  tokens-add_request :
      sum_by (λ (e : Usage). e.tokens) (values (add_request u p))
      ≡ sum_by (λ (e : Usage). e.tokens) (values u)
  unfolding add_request
  tokens-add_request =
      let e = or_else (get u p) no_usage in
      omega (
        arith,
        sum_by-put_else (λ (x : Usage). x.tokens) u p (record e { requests = suc e.requests })
            no_usage refl,
      )

  requests-add_tokens :
      (n : ℕ)
      → sum_by (λ (e : Usage). e.requests) (values (add_tokens u p n))
        ≡ sum_by (λ (e : Usage). e.requests) (values u)
  unfolding add_tokens
  requests-add_tokens n =
      let e = or_else (get u p) no_usage in
      omega (
        arith,
        sum_by-put_else (λ (x : Usage). x.requests) u p (record e { tokens = e.tokens + n })
            no_usage refl,
      )

  tokens-add_tokens :
      (n : ℕ)
      → sum_by (λ (e : Usage). e.tokens) (values (add_tokens u p n))
        ≡ sum_by (λ (e : Usage). e.tokens) (values u) + n
  unfolding add_tokens
  tokens-add_tokens n =
      let e = or_else (get u p) no_usage in
      omega (
        arith,
        sum_by-put_else (λ (x : Usage). x.tokens) u p (record e { tokens = e.tokens + n }) no_usage
            refl,
      )

loop_sums :
    (u : Dict Usage) (last : Option String) (es : List LogEvent)
    → (sum_by (λ (e : Usage). e.requests) (values (usage_loop u last es))
        ≡ sum_by (λ (e : Usage). e.requests) (values u) + sum_by is_request es)
      × (sum_by (λ (e : Usage). e.tokens) (values (usage_loop u last es))
          ≡ sum_by (λ (e : Usage). e.tokens) (values u) + tokens_after last es)
unfolding usage_loop sum_by
loop_sums u last [] = (omega arith, omega arith)
loop_sums u last (request raw ∷ es) =
    let p = provider_name raw in
    let rest = loop_sums (add_request u p) (some p) es in
    (
      omega (arith, rest.0, requests-add_request u p),
      omega (arith, rest.1, tokens-add_request u p, tokens_after_any p "" es),
    )
loop_sums u none (done i o c ∷ es) =
    (omega (arith, (loop_sums u none es).0), omega (arith, (loop_sums u none es).1))
loop_sums u (some p) (done i o c ∷ es) =
    let rest = loop_sums (add_tokens u p (i + o + c)) (some p) es in
    (
      omega (arith, rest.0, requests-add_tokens u p (i + o + c)),
      omega (arith, rest.1, tokens-add_tokens u p (i + o + c)),
    )
loop_sums u last (other ∷ es) =
    (omega (arith, (loop_sums u last es).0), omega (arith, (loop_sums u last es).1))

-- The providers together have every request of today's log once, and the tokens of every answer that
-- comes after a first request.
pub daily_provider_usage-sums :
    (es : List LogEvent)
    → (sum_by (λ (e : Usage). e.requests) (values (daily_provider_usage true (some es)))
        ≡ sum_by is_request es)
      × (sum_by (λ (e : Usage). e.tokens) (values (daily_provider_usage true (some es)))
          ≡ tokens_after none es)
unfolding daily_provider_usage sum_by
daily_provider_usage-sums es =
    (omega (arith, (loop_sums [] none es).0), omega (arith, (loop_sums [] none es).1))
