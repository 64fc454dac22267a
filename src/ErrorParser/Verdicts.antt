-- ===== src/ErrorParser/Verdicts.antt =====
-- error_parser.py: what every verdict of the parser names.
use provider_health_daemon.Base.{
  ℕ, ◌≡◌, refl, ap, sym, ◌∙◌, String, Bool, true, false, not, ◌&&◌, ◌||◌, Option, none, some, List,
  [], ◌∷◌, elem, all, all-append, is_some, Bool-cases, Option-cases, inl, inr, and_left, and_right,
  or_else, ltb, leb, ◌==◌, strip,
}
use provider_health_daemon.Clock.{Stamp, at, malformed}
use provider_health_daemon.Cooldown.{ErrorInfo, Fields, fields}
use provider_health_daemon.ErrorParser.{
  Reader, Captured, iso_rate_limit, seconds_to_cooldown, extract_retry_after_seconds,
}
use provider_health_daemon.ErrorParser.Retries.{retried_either, fields-apply, apply-permanent}
use provider_health_daemon.ErrorParser.Patterns.{
  Pattern, error_patterns, limit_patterns, account_patterns, request_patterns, context_patterns,
  overload_patterns,
}
use provider_health_daemon.ErrorParser.Parsing.{
  structural_types, type_text, names_no_time, first_match, verdict, parse_error, postprocess,
  unknown_error, matched, apply_cooldown_fields, scoped, apply_retry, set_fields, hint_is_longer,
  hinted_error, scope_free_tier, is_free_limit, extract_provider_model, text_length,
}

-- An error names its type and the minutes of its cooldown, and is permanent only if its type is structural.
abbrev pub fields_sound : Fields → Bool → Bool
fields_sound f permanent =
    is_some f.type
    && is_some f.minutes
    && (not permanent || elem (or_else f.type "") structural_types)

abbrev pub is_sound : ErrorInfo → Bool
is_sound e = fields_sound (fields e) e.permanent

-- The same of the error of a pattern, whose fields stand flat.
abbrev is_row : ErrorInfo → Bool
is_row e = not (names_no_time e.flat) && is_sound e

limits_sound :
    (now a b : ℕ) (t : Stamp)
    → all
        (λ (p : Pattern). is_row (p.1 (record { first = a; second = b; stamp = t })))
        (limit_patterns now)
      ≡ true
unfolding all elem fields iso_rate_limit
limits_sound now a b malformed = refl
limits_sound now a b (at t) = refl

accounts_sound : (g : Captured) → all (λ (p : Pattern). is_row (p.1 g)) account_patterns ≡ true
unfolding all elem fields
accounts_sound g = refl

requests_sound : (g : Captured) → all (λ (p : Pattern). is_row (p.1 g)) request_patterns ≡ true
unfolding all elem fields
requests_sound g = refl

contexts_sound : (g : Captured) → all (λ (p : Pattern). is_row (p.1 g)) context_patterns ≡ true
unfolding all elem fields
contexts_sound g = refl

overloads_sound : (g : Captured) → all (λ (p : Pattern). is_row (p.1 g)) overload_patterns ≡ true
unfolding all elem fields
overloads_sound g = refl

patterns_sound :
    (now : ℕ) (g : Captured) → all (λ (p : Pattern). is_row (p.1 g)) (error_patterns now) ≡ true
patterns_sound now g =
    let ok : Pattern → Bool = λ p. is_row (p.1 g) in
    all-append ok (limit_patterns now) _ (limits_sound now g.first g.second g.stamp) (
      all-append ok account_patterns _ (accounts_sound g) (
        all-append ok request_patterns _ (requests_sound g)
          (all-append ok context_patterns _ (contexts_sound g) (overloads_sound g))))

-- The error of a match is the row's, of those that hold for all that the rows capture.
abbrev SoundRows : List Pattern → Type 0
SoundRows ps = (g : Captured) → all (λ (p : Pattern). is_row (p.1 g)) ps ≡ true

first_match-row :
    (r : Reader) (body : String) (ps : List Pattern) (e : ErrorInfo)
    → SoundRows ps
    → first_match r body ps ≡ some e
    → is_row e ≡ true
unfolding first_match all
first_match-row r body [] e rows q = cc
first_match-row r body ((pattern, handler) ∷ ps) e rows q =
    elim (Option-cases (r.search pattern body)) [
      | inl none_found ↦
          let rest : first_match r body ps ≡ some e = rw none_found at q in
          first_match-row r body ps e (λ g. and_right _ _ (rows g)) rest
      | inr (g, found) ↦
          let here : some (handler g) ≡ some e = rw found at q in
          sym (ap (λ o. is_row (or_else o e)) here) ∙ and_left _ _ (rows g)
    ]

-- An error that no pattern knows.
unknown_error_sound : (status : ℕ) → is_sound (unknown_error status) ≡ true
unfolding fields
unknown_error_sound status = elim (Bool-cases (leb 400 status && ltb status 500)) [
  | inl q ↦ rw q refl
  | inr q ↦ elim (Bool-cases (leb 500 status && ltb status 600)) [
    | inl s ↦ rw (q, s) refl
    | inr s ↦ rw (q, s) refl
  ]
]

not-true : (b : Bool) → not b ≡ true → b ≡ false
not-true true h = sym h
not-true false h = refl

-- A matched error names hours or minutes, so that its status is not asked.
matched_sound :
    (status : ℕ) (o : Option ErrorInfo)
    → ((e : ErrorInfo) → o ≡ some e → is_row e ≡ true)
    → is_sound (matched status o) ≡ true
matched_sound status none rows = unknown_error_sound status
matched_sound status (some e) rows =
    let row = rows e refl in
    let named : names_no_time e.flat ≡ false = not-true (names_no_time e.flat) (and_left _ _ row) in
    rw named (and_right _ _ row)

verdict_sound :
    (r : Reader) (now status : ℕ) (body : String) → is_sound (verdict r now status body) ≡ true
unfolding verdict fields
verdict_sound r now status body =
    elim (Bool-cases (status == 429 && ltb (text_length (strip body)) 10)) [
      | inl q ↦ rw q refl
      | inr q ↦
          let found = first_match r body (error_patterns now) in
          rw q (
            matched_sound status found
              (λ e m. first_match-row r body (error_patterns now) e (patterns_sound now) m))
    ]

set_fields_sound :
    (f : Fields) (p : Bool) (h m : ℕ)
    → fields_sound f p ≡ true
    → fields_sound (set_fields h m f) p ≡ true
set_fields_sound f p h m s = elim (Option-cases f.type) [
  | inl q ↦ let no : false ≡ true = rw q at s in cc
  | inr (t, q) ↦ elim (Option-cases f.minutes) [
    | inl x ↦ let no : false ≡ true = rw (q, x) at s in cc
    | inr (n, x) ↦
        let kind : (not p || elem t structural_types) ≡ true = rw (q, x) at s in rw q kind
  ]
]

hinted_sound :
    (e : ErrorInfo) (h m : ℕ) → is_sound e ≡ true → is_sound (apply_cooldown_fields e h m) ≡ true
hinted_sound e h m s =
    let a = apply_cooldown_fields e h m in
    ap (λ f. fields_sound f a.permanent) (fields-apply e h m)
    ∙ ap (fields_sound (set_fields h m (fields e))) (apply-permanent e h m)
    ∙ set_fields_sound (fields e) e.permanent h m s

scoped_sound : (b : Bool) (e : ErrorInfo) → is_sound e ≡ true → is_sound (scoped b e) ≡ true
unfolding fields
scoped_sound true e s = s
scoped_sound false e s = s

apply_retry_sound :
    (e : ErrorInfo) (o : Option ℕ) → is_sound e ≡ true → is_sound (apply_retry e o) ≡ true
unfolding apply_retry
apply_retry_sound e none s = s
apply_retry_sound e (some n) s =
    let hint = seconds_to_cooldown n in
    let kind = elem (type_text e) structural_types in
    elim (retried_either e.permanent kind (hint_is_longer e n) e (hinted_error e n)) [
      | inl q ↦ ap is_sound q ∙ s
      | inr q ↦ ap is_sound q ∙ hinted_sound e hint.0 hint.1 s
    ]

-- Whatever the patterns find and whatever the status is, a parsed error names its type and the minutes of
-- its cooldown, and is permanent only if its type is structural.
pub is_sound-parse_error :
    (r : Reader) (now status : ℕ) (body : String)
    → is_sound (parse_error r now status body).info ≡ true
unfolding parse_error postprocess scope_free_tier
is_sound-parse_error r now status body =
    let retry = extract_retry_after_seconds r now body in
    let model = (extract_provider_model r body).1 in
    let e = apply_retry (verdict r now status body) retry in
    scoped_sound (is_free_limit model e) e
      (apply_retry_sound (verdict r now status body) retry (verdict_sound r now status body))
