-- ===== src/Tests/Caching.antt =====
-- The theorems on the cache of responses and on the parser of errors at concrete inputs.
use provider_health_daemon.Base.{
  ℕ, ◌+◌, ◌≤◌, ◌<◌, ◌≡◌, refl, true, false, some, none, [], ◌∷◌, Bool, arith, max, elem, any, strip,
  contains, before, if◌then◌else◌, ltb, filter, str_eq, sum_by,
}
use provider_health_daemon.Base.Dict.{get, put, remove}
use provider_health_daemon.Clock.{malformed, seconds, minutes}
use provider_health_daemon.Cooldown.{ErrorInfo, fields, base_duration}
use provider_health_daemon.Responses.{
  CachedResponse, ResponseCache, Body, pop_response, cache_get_key, cache_get, pop_all, oldest_key,
  make_room, store_response, roomy, cache_put_key, cache_put, is_over_cap, response_cache_ttl,
}
use provider_health_daemon.Responses.Bytes.{Bounded}
use provider_health_daemon.Responses.Room.{make_room-ends}
use provider_health_daemon.Responses.Calls.{ask, keep, cache_after, WithinCap, cache_calls-Bounded}
use provider_health_daemon.Responses.Reuse.{Gets, after_gets, get-put_response}
use provider_health_daemon.ErrorParser.{
  Reader, m, s, seconds_to_cooldown, span_seconds, extract_retry_after_seconds,
  extract_quota_reset_seconds, flat_error, retry_of_keys,
}
use provider_health_daemon.ErrorParser.Parsing.{
  Parsed, structural_types, parse_error, postprocess, apply_retry, verdict, first_match,
  scope_free_tier, is_free_tier_model, apply_cooldown_fields, extract_provider_model, text_length,
  decimal_text, digits_of, type_text, cooldown_minutes, status_fields, nested_error,
}
use provider_health_daemon.ErrorParser.Lines.{combo, parse_log_line, combo_body_in}
use provider_health_daemon.ErrorParser.Retries.{hint_minutes, apply_retry_lem, postprocess_idem}
use provider_health_daemon.ErrorParser.Verdicts.{is_sound, is_sound-parse_error}
use provider_health_daemon.ErrorParser.Waits.{base_duration-apply_retry}

caching : Unit {0}
unfolding get put remove filter sum_by pop_response cache_get_key cache_get pop_all oldest_key
    make_room store_response roomy cache_put_key cache_put cache_after WithinCap
caching = tt

abbrev anything : Body → Bool
anything body = true

abbrev held : ℕ → Body → CachedResponse
held t body = record { expires_at = t; body = body }

abbrev cache : ResponseCache
cache = record { entries = ("a", held 5 (1 ∷ 2 ∷ [])) ∷ ("b", held 3 (4 ∷ [])) ∷ []; bytes = 3 }

-- A body that is put twice is counted twice.
kept :
    ((cache_put anything 4 cache (some (false, "c")) (7 ∷ [])).entries
      ≡ ("a", held 5 (1 ∷ 2 ∷ [])) ∷ ("c", held 60_000_004 (7 ∷ [])) ∷ [])
    × ((cache_put anything 1
          (cache_put anything 1 cache (some (false, "a")) (7 ∷ []))
          (some (false, "a"))
          (7 ∷ [])).bytes
        ≡ 5)
    × (make_room 2 cache 8_388_606
        ≡ record { entries = ("a", held 5 (1 ∷ 2 ∷ [])) ∷ []; bytes = 2 })
unfolding caching
kept = (refl, refl, refl)

cache_calls-Bounded_example : Bounded (
    cache_after cache
      (ask 4 (some (false, "b")) ∷ keep anything 4 (some (false, "c")) (7 ∷ []) ∷ []))
unfolding WithinCap sum_by
cache_calls-Bounded_example =
    cache_calls-Bounded cache
      (ask 4 (some (false, "b")) ∷ keep anything 4 (some (false, "c")) (7 ∷ []) ∷ [])
      (omega arith, omega arith) (omega arith, tt)

make_room-ends_example :
    (make_room (2 + 5) cache 8_388_607 ≡ make_room 2 cache 8_388_607)
    × (is_over_cap (make_room 2 cache 8_388_607) 8_388_607 (make_room 2 cache 8_388_607).entries
        ≡ false)
make_room-ends_example = make_room-ends 2 5 cache 8_388_607 (omega arith)

-- The body is asked for, and an entry that has expired.
abbrev two_gets : Gets
two_gets = (6, some (false, "c")) ∷ (8, some (false, "a")) ∷ []

abbrev filled : ResponseCache
filled = cache_put anything 4 cache (some (false, "c")) (7 ∷ [])

get-put_response_example :
    ((cache_get 9 (after_gets filled two_gets) (some (false, "c"))).1
      ≡ (if ltb (4 + response_cache_ttl) 9 then none else some (7 ∷ [])))
    × (4 + response_cache_ttl < 9
        → get (cache_get 9 (after_gets filled two_gets) (some (false, "c"))).0.entries "c" ≡ none)
get-put_response_example =
    get-put_response anything 4 9 cache "c" (7 ∷ []) two_gets refl refl
      (omega arith, (omega arith, tt))

parsing : Unit {0}
unfolding elem any strip contains before fields parse_error postprocess apply_retry verdict
    first_match scope_free_tier is_free_tier_model apply_cooldown_fields extract_provider_model
    text_length decimal_text digits_of seconds_to_cooldown span_seconds extract_retry_after_seconds
    extract_quota_reset_seconds retry_of_keys parse_log_line combo_body_in status_fields
parsing = tt

-- A reader that finds one pattern in one body, and the retry hint `4m 51s` in every body.
abbrev reader : Reader
reader = record {
  search = λ pattern body.
      if str_eq pattern "Internal Server Error"
      then some (record { first = 0; second = 0; stamp = malformed })
      else none;
  json = λ body. none;
  retry_phrase = λ body. some ((4, m) ∷ (51, s) ∷ []);
  quota_delay = λ body. none;
  quota_stamp = λ body. none;
  bracketed = λ body. none;
  credentials = λ body. none;
}

abbrev limited : ErrorInfo
limited = flat_error (some 0) (some 15) "generic_429"

abbrev unpaid : ErrorInfo
unpaid = flat_error (some 24) (some 0) "no_credit"

parsed :
    ((parse_error reader 0 500 "Internal Server Error").info
      ≡ flat_error (some 0) (some 4) "generic_500")
    × (decimal_text 418 ≡ "418")
    × (apply_retry unpaid (some 90) ≡ unpaid)
    × (parse_log_line reader 0 (combo "groq/a:free" 429)
        ≡ some (record {
          info = record (nested_error 0 15 "generic_429") { model_specific = true };
          provider_hint = some "groq";
          model_hint = some "groq/a:free";
        }))
unfolding parsing
parsed = (refl, refl, refl, refl)

is_sound-parse_error_example :
    is_sound (parse_error reader 0 500 "Internal Server Error").info ≡ true
is_sound-parse_error_example = is_sound-parse_error reader 0 500 "Internal Server Error"

apply_retry_lem_example :
    (unpaid.permanent ≡ true → apply_retry unpaid (some 90) ≡ unpaid)
    × (unpaid.permanent ≡ false
        → elem (type_text unpaid) structural_types ≡ true
        → cooldown_minutes (apply_retry unpaid (some 90))
          ≡ max (cooldown_minutes unpaid) (hint_minutes 90))
    × (unpaid.permanent ≡ false
        → elem (type_text unpaid) structural_types ≡ false
        → cooldown_minutes (apply_retry unpaid (some 90)) ≡ hint_minutes 90)
apply_retry_lem_example = apply_retry_lem unpaid 90

abbrev free : Parsed
free = record { info = limited; provider_hint = some "groq"; model_hint = some "a:free" }

postprocess_idem_example :
    postprocess (some 291) (postprocess (some 291) free) ≡ postprocess (some 291) free
postprocess_idem_example = postprocess_idem (some 291) free

base_duration-apply_retry_example :
    (base_duration (apply_retry limited (some 45)) ≤ seconds (max 45 30))
    × (seconds (max 45 30) < base_duration (apply_retry limited (some 45)) + minutes 1)
    × (45 < 60 → base_duration (apply_retry limited (some 45)) ≡ 0)
unfolding elem fields
base_duration-apply_retry_example = base_duration-apply_retry limited 45 refl refl
