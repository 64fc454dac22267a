-- ===== src/Registry/Circuit/Reads.antt =====
-- What asking whether a provider is healthy changes for the questions that follow.
use provider_health_daemon.Base.{
  ℕ, String, ◌≡◌, refl, sym, ap, ◌∙◌, Bool, true, false, not, ◌&&◌, Option, none, some, arith,
  str_eq, eq_iff, if◌then◌else◌, Bool-cases, and_right, Option-cases, List, [], inl, inr, length,
  filter,
}
use provider_health_daemon.Base.Dict.{get}
use provider_health_daemon.Aliases.{normalize_provider, is_denied}
use provider_health_daemon.Registry.{
  Registry, Breaker, BreakerState, Entry, save, get_provider, entry_is_healthy,
}
use provider_health_daemon.Registry.Circuit.{
  put_cb, or_new, get_cb, execute_step, can_execute_cb, penalty_of, get_429_penalty,
  is_provider_healthy, is_recent, window_429,
}
use provider_health_daemon.Registry.Circuit.Machine.{step}
use provider_health_daemon.Registry.Circuit.Store.{
  breaker, found, or_fresh, can_execute_cb-step, can_execute_cb-answer,
}

save_if_entries :
    (b : Bool) (r : Registry)
    → ((if b then save r else r).health.providers ≡ r.health.providers)
      × ((if b then save r else r).health.models ≡ r.health.models)
unfolding save
save_if_entries b r = ground arith

or_new_entries :
    (now : ℕ) (r : Registry) (p : String) (o : Option Breaker)
    → ((or_new now r p o).0.health.providers ≡ r.health.providers)
      × ((or_new now r p o).0.health.models ≡ r.health.models)
or_new_entries now r p none = (refl, refl)
or_new_entries now r p (some cb) = (refl, refl)

get_cb_entries :
    (now : ℕ) (r : Registry) (name : String)
    → ((get_cb now r name).0.health.providers ≡ r.health.providers)
      × ((get_cb now r name).0.health.models ≡ r.health.models)
unfolding get_cb
get_cb_entries now r name =
    or_new_entries now r (normalize_provider name) (breaker r (normalize_provider name))

-- The entries do not change.
can_execute_cb_entries :
    (now : ℕ) (r : Registry) (name : String) (acquire : Bool)
    → ((can_execute_cb now r name acquire).0.health.providers ≡ r.health.providers)
      × ((can_execute_cb now r name acquire).0.health.models ≡ r.health.models)
unfolding can_execute_cb
can_execute_cb_entries now r name acquire =
    elim (Bool-cases (is_denied (normalize_provider name))) [
      | inl d ↦ rw d (refl, refl)
      | inr d ↦
          let p = normalize_provider name in
          let found = get_cb now r p in
          let next = execute_step now acquire found.1 in
          let e = get_cb_entries now r p in
          let s = save_if_entries next.1 (put_cb found.0 p next.0) in rw d (s.0 ∙ e.0, s.1 ∙ e.1)
    ]

-- To ask a breaker again without taking a slot.
asked_again :
    (now : ℕ) (cb : Breaker) (s : BreakerState)
    → cb.state ≡ s
    → (execute_step now false (execute_step now false cb).0).2 ≡ (execute_step now false cb).2
unfolding execute_step
asked_again now cb BreakerState.opened e = ground arith
asked_again now cb s e = ground arith

limits_kept : (now : ℕ) (cb : Breaker) → (execute_step now false cb).0.recent_429s ≡ cb.recent_429s
unfolding execute_step
limits_kept now cb = ground arith

chosen_answer :
    (now : ℕ) (b : Bool) (f : Breaker) (o : Option Breaker)
    → (b ≡ true → or_fresh now o ≡ f)
    → (execute_step now false (or_fresh now (if b then some (execute_step now false f).0 else o))).2
      ≡ (execute_step now false (or_fresh now o)).2
chosen_answer now true f o h =
    asked_again now f f.state refl ∙ ap (λ x. (execute_step now false x).2) (sym (h refl))
chosen_answer now false f o h = refl

limits_of : Option Breaker → List ℕ
limits_of none = []
limits_of (some cb) = cb.recent_429s

fresh_limits : (now : ℕ) (o : Option Breaker) → (or_fresh now o).recent_429s ≡ limits_of o
unfolding limits_of
fresh_limits now none = refl
fresh_limits now (some cb) = refl

chosen_limits :
    (now : ℕ) (b : Bool) (f : Breaker) (o : Option Breaker)
    → (b ≡ true → or_fresh now o ≡ f)
    → limits_of (if b then some (execute_step now false f).0 else o) ≡ limits_of o
unfolding limits_of
chosen_limits now true f o h =
    limits_kept now f ∙ ap (λ (x : Breaker). x.recent_429s) (sym (h refl)) ∙ fresh_limits now o
chosen_limits now false f o h = refl

get_429_penalty-limits :
    (now : ℕ) (r : Registry) (q : String)
    → get_429_penalty now r q
      ≡ penalty_of (
          length (filter (is_recent window_429 now) (limits_of (breaker r (normalize_provider q)))))
unfolding get_429_penalty limits_of filter
get_429_penalty-limits now r q = elim (Option-cases (breaker r (normalize_provider q))) [
  | inl e ↦ rw (get_429_penalty, e) refl
  | inr (cb, e) ↦ rw (get_429_penalty, e) refl
]

-- All that can be asked of a registry about the entries and the breakers is answered alike.
pub record Agree (now : ℕ) (r r' : Registry) : Type 0 where
  pub providers : r'.health.providers ≡ r.health.providers
  pub models : r'.health.models ≡ r.health.models
  pub answers : (q : String) → (can_execute_cb now r' q false).1 ≡ (can_execute_cb now r q false).1
  pub limits : (q : String) → get_429_penalty now r' q ≡ get_429_penalty now r q

pub Agree-refl : (now : ℕ) (r : Registry) → Agree now r r
Agree-refl now r = record {
  providers = refl;
  models = refl;
  answers = λ q. refl;
  limits = λ q. refl;
}

pub Agree-trans : {now : ℕ} {r s t : Registry} → Agree now r s → Agree now s t → Agree now r t
Agree-trans a b = record {
  providers = b.providers ∙ a.providers;
  models = b.models ∙ a.models;
  answers = λ q. b.answers q ∙ a.answers q;
  limits = λ q. b.limits q ∙ a.limits q;
}

found-same :
    (now : ℕ) (r : Registry) (p q : String)
    → (not (is_denied (normalize_provider p))
        && str_eq (normalize_provider p) (normalize_provider q))
      ≡ true
    → found now r q ≡ found now r p
found-same now r p q h =
    let e : normalize_provider p ≡ normalize_provider q =
      (eq_iff (normalize_provider p) (normalize_provider q)).0 (and_right _ _ h) in
    ap (λ x. or_fresh now (breaker r x)) (sym e)

module _ (now : ℕ) (r : Registry) (p : String) where
  asked : Registry
  asked = (can_execute_cb now r p false).0

  asked-breaker :
      (q : String)
      → breaker asked (normalize_provider q) ≡ (
          if not (is_denied (normalize_provider p))
            && str_eq (normalize_provider p) (normalize_provider q)
          then some (execute_step now false (found now r p)).0
          else breaker r (normalize_provider q))
  unfolding asked step
  asked-breaker q = can_execute_cb-step now r p false (normalize_provider q)

  -- To ask whether a provider is healthy, which may open a breaker by half, changes no answer.
  pub can_execute_cb-Agree : Agree now r (can_execute_cb now r p false).0
  unfolding asked
  can_execute_cb-Agree = record {
    providers = (can_execute_cb_entries now r p false).0;
    models = (can_execute_cb_entries now r p false).1;
    answers = λ q.
        rw
          (
            can_execute_cb-answer now asked q false,
            can_execute_cb-answer now r q false,
            asked-breaker q,
          )
          (ap (λ x. if is_denied (normalize_provider q) then true else x)
            (chosen_answer now _ (found now r p) (breaker r (normalize_provider q))
              (found-same now r p q)));
    limits = λ q.
        rw (get_429_penalty-limits now asked q, get_429_penalty-limits now r q, asked-breaker q)
          (ap (λ x. penalty_of (length (filter (is_recent window_429 now) x)))
            (chosen_limits now _ (found now r p) (breaker r (normalize_provider q))
              (found-same now r p q)));
  }

-- What `is_provider_healthy` answers, asked of the registry as it is.
abbrev pub status_answers : ℕ → Option Entry → Bool
status_answers now none = true
status_answers now (some e) = elim e.status [ none ↦ true | some _ ↦ entry_is_healthy now e ]

abbrev pub healthy_answer : ℕ → Registry → String → Bool
healthy_answer now r name =
    if (can_execute_cb now r name false).1 then status_answers now (get_provider r name) else false

abbrev with_status : ℕ → Registry → Option Entry → Registry × Bool
with_status now r o = elim o [
  | none ↦ (r, true)
  | some e ↦ elim e.status [ none ↦ (r, true) | some _ ↦ (r, entry_is_healthy now e) ]
]

status_pair :
    (now : ℕ) (r : Registry) (o : Option Entry) → with_status now r o ≡ (r, status_answers now o)
status_pair now r none = refl
status_pair now r (some e) = elim (Option-cases e.status) [
  | inl k ↦ rw k refl
  | inr (s, k) ↦ rw k refl
]

-- The question changes the registry as the breaker's does, and its answer is that of the breaker and
-- of the entry.
pub is_provider_healthy_lem :
    (now : ℕ) (r : Registry) (name : String)
    → is_provider_healthy now r name
      ≡ ((can_execute_cb now r name false).0, healthy_answer now r name)
unfolding is_provider_healthy get_provider
is_provider_healthy_lem now r name =
    let e = ap (λ d. get d (normalize_provider name)) (can_execute_cb_entries now r name false).0 in
    elim (Bool-cases (can_execute_cb now r name false).1) [
      | inl k ↦ rw k (
          rw e (
            status_pair now (can_execute_cb now r name false).0
              (get r.health.providers (normalize_provider name))))
      | inr k ↦ rw k refl
    ]
