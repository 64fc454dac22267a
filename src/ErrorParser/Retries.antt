-- ===== src/ErrorParser/Retries.antt =====
-- error_parser.py: what a retry hint does to the cooldown of an error.
use provider_health_daemon.Base.{
  ℕ, ◌+◌, ◌*◌, ◌/◌, max, ◌≤◌, ◌<◌, ◌≡◌, ◌⊎◌, refl, ap, sym, ◌∙◌, String, Bool, true, false, Option,
  none, some, ltb, or_else, elem, arith, Option-cases, inl, inr,
}
use provider_health_daemon.Cooldown.{ErrorInfo, Fields, fields}
use provider_health_daemon.ErrorParser.{seconds_to_cooldown}
use provider_health_daemon.ErrorParser.Parsing.{
  Parsed, structural_types, apply_cooldown_fields, apply_retry, scope_free_tier, postprocess,
  type_text, cooldown_minutes, set_fields, retried, is_free_limit, scoped, hint_is_longer,
  hinted_error,
}

-- The whole minutes of a hint, which counts for half a minute at least.
abbrev pub hint_minutes : ℕ → ℕ
hint_minutes n = max n 30 / 60

pub seconds_to_cooldown-minutes :
    (n : ℕ) → (seconds_to_cooldown n).0 * 60 + (seconds_to_cooldown n).1 ≡ hint_minutes n
unfolding seconds_to_cooldown
seconds_to_cooldown-minutes n = omega arith

-- Wherever the fields stand, it is these that change.
pub fields-apply :
    (e : ErrorInfo) (h m : ℕ) → fields (apply_cooldown_fields e h m) ≡ set_fields h m (fields e)
unfolding apply_cooldown_fields fields
fields-apply e h m = elim (Option-cases e.cooldown) [ inl q ↦ rw q refl | inr (f, q) ↦ rw q refl ]

apply-minutes :
    (e : ErrorInfo) (h m : ℕ) → cooldown_minutes (apply_cooldown_fields e h m) ≡ h * 60 + m
apply-minutes e h m =
    ap (λ (f : Fields). or_else f.hours 0 * 60 + or_else f.minutes 0) (fields-apply e h m)

pub apply-permanent :
    (e : ErrorInfo) (h m : ℕ) → (apply_cooldown_fields e h m).permanent ≡ e.permanent
unfolding apply_cooldown_fields
apply-permanent e h m = elim (Option-cases e.cooldown) [
  | inl q ↦ rw q refl
  | inr (f, q) ↦ rw q refl
]

apply_again :
    (e : ErrorInfo) (h m : ℕ)
    → apply_cooldown_fields (apply_cooldown_fields e h m) h m ≡ apply_cooldown_fields e h m
unfolding apply_cooldown_fields
apply_again e h m = elim (Option-cases e.cooldown) [ inl q ↦ rw q refl | inr (f, q) ↦ rw q refl ]

longest :
    (l : Bool) (e a : ErrorInfo) (x y : ℕ)
    → ltb (cooldown_minutes e) x ≡ l
    → cooldown_minutes a ≡ y
    → x ≡ y
    → cooldown_minutes (retried false true l e a) ≡ max (cooldown_minutes e) y
longest true e a x y l m q = let less : cooldown_minutes e < x = ground arith in omega arith
longest false e a x y l m q = let more : x ≤ cooldown_minutes e = ground arith in omega arith

-- A retry hint leaves a permanent error as it is. The cooldown of another error of a structural type becomes
-- the longer of its own and the hint, and that of any other type becomes the hint, in whole minutes.
pub apply_retry_lem :
    (e : ErrorInfo) (n : ℕ)
    → (e.permanent ≡ true → apply_retry e (some n) ≡ e)
      × (e.permanent ≡ false
          → elem (type_text e) structural_types ≡ true
          → cooldown_minutes (apply_retry e (some n)) ≡ max (cooldown_minutes e) (hint_minutes n))
      × (e.permanent ≡ false
          → elem (type_text e) structural_types ≡ false
          → cooldown_minutes (apply_retry e (some n)) ≡ hint_minutes n)
unfolding apply_retry
apply_retry_lem e n =
    let a = hinted_error e n in
    let kind = elem (type_text e) structural_types in
    let longer = hint_is_longer e n in
    let hint = seconds_to_cooldown n in
    let minutes : cooldown_minutes a ≡ hint_minutes n =
      apply-minutes e hint.0 hint.1 ∙ seconds_to_cooldown-minutes n in
    let by : (b : Bool)
        → e.permanent ≡ false
        → kind ≡ b
        → apply_retry e (some n) ≡ retried false b longer e a =
      λ b p t. ap (λ c. retried c kind longer e a) p ∙ ap (λ c. retried false c longer e a) t in
    (
      (λ p. ap (λ c. retried c kind longer e a) p),
      (λ p t.
          ap cooldown_minutes (by true p t)
          ∙ longest longer e a (hint.0 * 60 + hint.1) (hint_minutes n) refl minutes
              (seconds_to_cooldown-minutes n)),
      (λ p t. ap cooldown_minutes (by false p t) ∙ minutes),
    )

retried_same : (p t l : Bool) (e a : ErrorInfo) → a ≡ e → retried p t l e a ≡ e
retried_same true t l e a q = refl
retried_same false true true e a q = q
retried_same false true false e a q = refl
retried_same false false l e a q = q

pub retried_either :
    (p t l : Bool) (e a : ErrorInfo) → (retried p t l e a ≡ e) ⊎ (retried p t l e a ≡ a)
retried_either true t l e a = inl refl
retried_either false true true e a = inr refl
retried_either false true false e a = inl refl
retried_either false false l e a = inr refl

-- The same hint a second time changes nothing.
pub apply_retry_idem :
    (e : ErrorInfo) (o : Option ℕ) → apply_retry (apply_retry e o) o ≡ apply_retry e o
unfolding apply_retry
apply_retry_idem e none = refl
apply_retry_idem e (some n) =
    let hint = seconds_to_cooldown n in
    let a = hinted_error e n in
    let kind : ErrorInfo → Bool = λ x. elem (type_text x) structural_types in
    let settled : apply_retry a (some n) ≡ a =
      retried_same a.permanent (kind a) (hint_is_longer a n) a (hinted_error a n)
        (apply_again e hint.0 hint.1) in
    elim (retried_either e.permanent (kind e) (hint_is_longer e n) e a) [
      | inl q ↦ ap (λ x. apply_retry x (some n)) q
      | inr q ↦ ap (λ x. apply_retry x (some n)) q ∙ settled ∙ sym q
    ]

is_free_limit-scoped :
    (model : Option String) (b : Bool) (e : ErrorInfo)
    → is_free_limit model (scoped b e) ≡ is_free_limit model e
unfolding fields
is_free_limit-scoped model true e = refl
is_free_limit-scoped model false e = refl

scoped_idem : (b : Bool) (e : ErrorInfo) → scoped b (scoped b e) ≡ scoped b e
scoped_idem true e = refl
scoped_idem false e = refl

retried-scoped :
    (p t l b : Bool) (e a : ErrorInfo)
    → retried p t l (scoped b e) (scoped b a) ≡ scoped b (retried p t l e a)
retried-scoped true t l b e a = refl
retried-scoped false true true b e a = refl
retried-scoped false true false b e a = refl
retried-scoped false false l b e a = refl

hinted_error-scoped :
    (e : ErrorInfo) (n : ℕ) → hinted_error (scoped true e) n ≡ scoped true (hinted_error e n)
unfolding apply_cooldown_fields
hinted_error-scoped e n = elim (Option-cases e.cooldown) [
  | inl q ↦ rw q refl
  | inr (f, q) ↦ rw q refl
]

apply_retry-scoped :
    (b : Bool) (e : ErrorInfo) (o : Option ℕ)
    → apply_retry (scoped b e) o ≡ scoped b (apply_retry e o)
unfolding apply_retry fields
apply_retry-scoped b e none = refl
apply_retry-scoped false e (some n) = refl
apply_retry-scoped true e (some n) =
    let t = elem (type_text e) structural_types in
    ap (λ a. retried e.permanent t (hint_is_longer e n) (scoped true e) a) (hinted_error-scoped e n)
    ∙ retried-scoped e.permanent t (hint_is_longer e n) true e (hinted_error e n)

scope_free_tier_idem :
    (model : Option String) (e : ErrorInfo)
    → scope_free_tier model (scope_free_tier model e) ≡ scope_free_tier model e
unfolding scope_free_tier
scope_free_tier_idem model e =
    let b = is_free_limit model e in
    ap (λ c. scoped c (scoped b e)) (is_free_limit-scoped model b e) ∙ scoped_idem b e

info_idem :
    (model : Option String) (e : ErrorInfo) (o : Option ℕ)
    → scope_free_tier model (apply_retry (scope_free_tier model (apply_retry e o)) o)
      ≡ scope_free_tier model (apply_retry e o)
unfolding scope_free_tier
info_idem model e o =
    let once = apply_retry e o in
    let b = is_free_limit model once in
    let settled : apply_retry (scoped b once) o ≡ scoped b once =
      apply_retry-scoped b once o ∙ ap (scoped b) (apply_retry_idem e o) in
    ap (scope_free_tier model) settled ∙ scope_free_tier_idem model once

-- An error that has been postprocessed is not changed by being postprocessed again with the same retry hint.
pub postprocess_idem :
    (o : Option ℕ) (p : Parsed) → postprocess o (postprocess o p) ≡ postprocess o p
unfolding postprocess
postprocess_idem o p =
    ap (λ (e : ErrorInfo). record p { info = e }) (info_idem p.model_hint p.info o)
