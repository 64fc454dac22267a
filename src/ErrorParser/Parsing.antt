-- ===== src/ErrorParser/Parsing.antt =====
-- error_parser.py: `parse_error` and the lines of error.log.
use Prim.Native.String.{◌++◌ as append}
use text.Mathlib.Text.{starts_with}
use provider_health_daemon.Base.{
  ℕ, zero, suc, ◌+◌, ◌*◌, ◌/◌, ◌%◌, String, Bool, true, false, not, ◌&&◌, ◌||◌, Option, none, some,
  List, [], ◌∷◌, if◌then◌else◌, ltb, leb, or_else, is_some, elem, contains, str_eq, strip, ◌==◌,
}
use provider_health_daemon.Cooldown.{ErrorInfo, Fields, fields}
use provider_health_daemon.ErrorParser.{
  Reader, Captured, JsonBody, no_error, error_text, error_dict, seconds_to_cooldown,
  extract_retry_after_seconds, first_hit,
}
use provider_health_daemon.ErrorParser.Patterns.{Pattern, error_patterns}

-- A parsed error with what it says of its provider and its model.
pub record Parsed : Type 0 where
  pub info : ErrorInfo
  pub provider_hint : Option String
  pub model_hint : Option String

-- `_STRUCTURAL_COOLDOWN_TYPES`
abbrev pub structural_types : List String
structural_types =
    "invalid_subscription" ∷ "subscription_level" ∷ "no_credit" ∷ "no_credentials"
    ∷ "payment_required" ∷ "paid_required" ∷ "auth_invalid" ∷ "model_not_found" ∷ "model_deprecated"
    ∷ "model_not_supported" ∷ []

abbrev is_free_text : Option String → Bool
is_free_text none = false
is_free_text (some model) = contains model ":free"

-- `_is_free_tier_model`
unfoldable pub is_free_tier_model : Option String → Bool
is_free_tier_model model = is_free_text model

-- `_apply_cooldown_fields`
abbrev pub set_fields : ℕ → ℕ → Fields → Fields
set_fields hours minutes f = record f { hours = some hours; minutes = some minutes }

abbrev pub set_held : ℕ → ℕ → ErrorInfo → Option Fields → ErrorInfo
set_held hours minutes e none = record e { flat = set_fields hours minutes e.flat }
set_held hours minutes e (some f) = record e { cooldown = some (set_fields hours minutes f) }

unfoldable pub apply_cooldown_fields : ErrorInfo → ℕ → ℕ → ErrorInfo
apply_cooldown_fields e hours minutes = set_held hours minutes e e.cooldown

-- `str(cd.get("type", ""))`
abbrev pub type_text : ErrorInfo → String
type_text e = or_else (fields e).type ""

abbrev pub cooldown_minutes : ErrorInfo → ℕ
cooldown_minutes e = or_else (fields e).hours 0 * 60 + or_else (fields e).minutes 0

-- Which of an error and the same error with the hint it is, by three tests: the error is permanent, its type
-- is structural, and the hint is longer. For a structural type the hint may only extend.
abbrev pub retried : (permanent structural longer : Bool) → ErrorInfo → ErrorInfo → ErrorInfo
retried true structural longer e hinted = e
retried false true true e hinted = hinted
retried false true false e hinted = e
retried false false longer e hinted = hinted

abbrev pub hint_is_longer : ErrorInfo → ℕ → Bool
hint_is_longer e n =
    let hint = seconds_to_cooldown n in ltb (cooldown_minutes e) (hint.0 * 60 + hint.1)

abbrev pub hinted_error : ErrorInfo → ℕ → ErrorInfo
hinted_error e n = let hint = seconds_to_cooldown n in apply_cooldown_fields e hint.0 hint.1

unfoldable pub apply_retry : ErrorInfo → Option ℕ → ErrorInfo
apply_retry e none = e
apply_retry e (some n) =
    retried e.permanent (elem (type_text e) structural_types) (hint_is_longer e n) e
      (hinted_error e n)

-- The rate limit of a free tier is the model's.
abbrev pub is_free_limit : Option String → ErrorInfo → Bool
is_free_limit model e =
    is_free_tier_model model
    && (elem (type_text e) ("generic_429" ∷ "unknown_429" ∷ [])
        || starts_with (type_text e) "unknown_4")

abbrev pub scoped : Bool → ErrorInfo → ErrorInfo
scoped true e = record e { model_specific = true }
scoped false e = e

unfoldable pub scope_free_tier : Option String → ErrorInfo → ErrorInfo
scope_free_tier model e = scoped (is_free_limit model e) e

-- `_postprocess_error_result`, with the retry hint of the body
unfoldable pub postprocess : Option ℕ → Parsed → Parsed
postprocess retry p = record p { info = scope_free_tier p.model_hint (apply_retry p.info retry) }

-- `parsed[hint] or other`: a hint that is empty counts for none.
abbrev pub hint_or : Option String → Option String → Option String
hint_or none other = other
hint_or (some s) other = if str_eq s "" then other else some s

-- The hints of `extract_provider_model`: the model, the provider and the text that a JSON body has, then the
-- patterns on that text.
abbrev json_hints : String → Option JsonBody → Option String × Option String × String
json_hints body none = (none, none, body)
json_hints body (some j) = elim j.error [
  | no_error ↦ (j.provider, j.model, body)
  | error_text t ↦ (j.provider, j.model, t)
  | error_dict k message provider model ↦ (
    hint_or j.provider provider,
    hint_or j.model model,
    or_else (hint_or message (some body)) body,
  )
]

abbrev pub is_set : Option String → Bool
is_set none = false
is_set (some s) = not (str_eq s "")

abbrev bracket_hints :
    Option (String × String) → Option String → Option String → Option String × Option String
bracket_hints none provider model = (provider, model)
bracket_hints (some (p, m)) provider model = (hint_or provider (some p), hint_or model (some m))

unfoldable pub extract_provider_model : Reader → String → Option String × Option String
extract_provider_model r body =
    let (provider, model, text) = json_hints body (r.json body) in
    let (named, of_model) = bracket_hints (r.bracketed text) provider model in
    (if is_set named then named else first_hit (r.credentials text) named, of_model)

-- `len(s)` and `str(n)`
unfoldable pub text_length : String → ℕ
text_length String.[] = 0
text_length (String.◌∷◌ c s) = suc (text_length s)

abbrev pub digit_from : List String → ℕ → String
digit_from [] n = ""
digit_from (d ∷ ds) zero = d
digit_from (d ∷ ds) (suc n) = digit_from ds n

abbrev pub digit : ℕ → String
digit = digit_from ("0" ∷ "1" ∷ "2" ∷ "3" ∷ "4" ∷ "5" ∷ "6" ∷ "7" ∷ "8" ∷ "9" ∷ [])

unfoldable pub digits_of : ℕ → ℕ → String
digits_of zero n = digit n
digits_of (suc fuel) n =
    let front = digits_of fuel (n / 10) in
    if ltb n 10 then digit n else append front (digit (n % 10))

unfoldable pub decimal_text : ℕ → String
decimal_text n = digits_of n n

-- The cooldown that a status gives where the pattern names no hours and no minutes.
unfoldable pub status_fields : ℕ → ErrorInfo → ErrorInfo
status_fields status e =
    if status == 429
    then apply_cooldown_fields e 0 15
    else if status == 403
    then record (apply_cooldown_fields e 0 0) { permanent = true }
    else if status == 404
    then record (apply_cooldown_fields e 1 0) { model_specific = true }
    else if status == 413
    then apply_cooldown_fields e 0 1
    else if leb 500 status
    then apply_cooldown_fields e 0 2
    else apply_cooldown_fields e 1 0

abbrev pub names_no_time : Fields → Bool
names_no_time f = not (is_some f.hours) && not (is_some f.minutes)

abbrev pub of_status : ℕ → ErrorInfo → ErrorInfo
of_status status e = if names_no_time e.flat then status_fields status e else e

abbrev pub or_later : (Captured → ErrorInfo) → Option Captured → Option ErrorInfo → Option ErrorInfo
or_later handler none rest = rest
or_later handler (some g) rest = some (handler g)

-- The first pattern that is found in the body.
unfoldable pub first_match : Reader → String → List Pattern → Option ErrorInfo
first_match r body [] = none
first_match r body ((pattern, handler) ∷ ps) =
    or_later handler (r.search pattern body) (first_match r body ps)

-- An error whose fields stand under `cooldown`.
abbrev pub nested_error : ℕ → ℕ → String → ErrorInfo
nested_error hours minutes type = record {
  cooldown = some (record { hours = some hours; minutes = some minutes; type = some type });
  flat = record { hours = none; minutes = none; type = none };
  permanent = false;
  model_specific = false;
  recheck = false;
  global = false;
}

abbrev pub unknown_error : ℕ → ErrorInfo
unknown_error status =
    let name = append "unknown_" (decimal_text status) in
    if leb 400 status && ltb status 500
    then nested_error 0 15 name
    else if leb 500 status && ltb status 600
    then nested_error 0 5 name
    else nested_error 1 0 name

abbrev pub matched : ℕ → Option ErrorInfo → ErrorInfo
matched status none = unknown_error status
matched status (some e) = of_status status e

unfoldable pub verdict : Reader → ℕ → ℕ → String → ErrorInfo
verdict r now status body =
    if status == 429 && ltb (text_length (strip body)) 10
    then nested_error 0 15 "generic_429"
    else matched status (first_match r body (error_patterns now))

unfoldable pub parse_error : Reader → ℕ → ℕ → String → Parsed
parse_error r now status body =
    let hints = extract_provider_model r body in
    postprocess (extract_retry_after_seconds r now body)
      (record { info = verdict r now status body; provider_hint = hints.0; model_hint = hints.1 })
