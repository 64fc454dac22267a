-- ===== src/Prober/Outcomes.antt =====
-- model_prober.py: what a probe does to the model that was probed.
use provider_health_daemon.Base.{
  ℕ, suc, ◌+◌, ◌<◌, ◌≡◌, refl, ap, ◌∙◌, String, true, false, some, List, [], ◌∷◌, ◌++◌, map,
  if◌then◌else◌, ltb, leb, lt→ltb, arith, filter, before, str_eq, Bool-cases, inl, inr, elem,
  eq_iff, All, All-filter_test, All-imp,
}
use provider_health_daemon.Base.Dict.{get, put, get-put, get-put_self}
use provider_health_daemon.Aliases.{normalize_provider, is_denied}
use provider_health_daemon.Clock.{seconds}
use provider_health_daemon.Registry.{Registry, Entry, is_model_available, get_model}
use provider_health_daemon.Registry.GlobalGate.{is_global_gated}
use provider_health_daemon.Registry.Errors.{mark_error, failures_of}
use provider_health_daemon.Registry.Errors.Blocking.{mark_healthy-frees}
use provider_health_daemon.Prober.{
  Parser, Prober, Probed, Attempt, works, fails, outcome_of, apply_outcome, is_due, due_models,
  probe_batch,
}

-- A model whose last attempt was less than a minute ago is not due, whatever its entry says.
lately_not_due :
    (now tick since : ℕ) (p : Prober) (m : String) (e : Entry)
    → get p.last_probe_at m ≡ some since
    → tick < since + seconds 60
    → is_due now tick p (m, e) ≡ false
unfolding is_due
lately_not_due now tick since p m e h k =
    let t : ltb tick (since + seconds 60) ≡ true = lt→ltb tick (since + seconds 60) k in
    rw (h, t) (ground arith)

last_probe-others :
    (parse : Parser) (p : Prober) (s : Probed) (m : String) (ms : List String)
    (attempts : List Attempt)
    → elem m ms ≡ false
    → get (probe_batch parse p s ms attempts).0.last_probe_at m ≡ get p.last_probe_at m
unfolding probe_batch elem
last_probe-others parse p s m [] attempts e = refl
last_probe-others parse p s m (x ∷ ms) [] e = refl
last_probe-others parse p s m (x ∷ ms) (a ∷ attempts) e =
    let other : str_eq x m ≡ false = ground (arith, eq_iff m x, eq_iff x m) in
    let rest : elem m ms ≡ false = ground arith in
    last_probe-others parse (record p { last_probe_at = put p.last_probe_at x a.tick })
      (apply_outcome parse a.now a.jitter s x (outcome_of a.reply)) m ms attempts rest
    ∙ rw (get-put p.last_probe_at x m a.tick, other) refl

not_named :
    (now tick since : ℕ) (p : Prober) (m : String) (e : String × Entry)
    → get p.last_probe_at m ≡ some since
    → tick < since + seconds 60
    → is_due now tick p e ≡ true
    → str_eq e.0 m ≡ false
not_named now tick since p m e h k due = elim (Bool-cases (str_eq e.0 m)) [
  | inl t ↦
      let same : e.0 ≡ m = (eq_iff e.0 m).0 t in
      let off : is_due now tick p e ≡ false =
        lately_not_due now tick since p e.0 e.1 (ap (get p.last_probe_at) same ∙ h) k in
      cc
  | inr f ↦ f
]

first-rests :
    (parse : Parser) (p : Prober) (s : Probed) (m : String) (ms : List String) (a : Attempt)
    (attempts : List Attempt) (now tick : ℕ) (r : Registry)
    → elem m ms ≡ false
    → tick < a.tick + seconds 60
    → All
        (λ e. str_eq e.0 m ≡ false)
        (due_models now tick (probe_batch parse p s (m ∷ ms) (a ∷ attempts)).0 r)
unfolding due_models probe_batch
first-rests parse p s m ms a attempts now tick r once h =
    let p₁ = record p { last_probe_at = put p.last_probe_at m a.tick } in
    let s₁ = apply_outcome parse a.now a.jitter s m (outcome_of a.reply) in
    let p₂ = (probe_batch parse p₁ s₁ ms attempts).0 in
    let known : get p₂.last_probe_at m ≡ some a.tick =
      last_probe-others parse p₁ s₁ m ms attempts once ∙ get-put_self p.last_probe_at m a.tick in
    All-imp (λ e. not_named now tick a.tick p₂ m e known h)
      (filter (is_due now tick p₂) r.health.models)
      (All-filter_test (is_due now tick p₂) r.health.models)

-- Wherever a model stands in a batch, if the attempt of its turn is made and the rest of the batch does not
-- have it again, it is not due for a minute after that attempt, of whatever the registry has become in the
-- meantime.
pub due_models-rests :
    (parse : Parser) (p : Prober) (s : Probed) (before : List (String × Attempt)) (m : String)
    (ms : List String) (a : Attempt) (attempts : List Attempt) (now tick : ℕ) (r : Registry)
    → elem m ms ≡ false
    → tick < a.tick + seconds 60
    → All
        (λ e. str_eq e.0 m ≡ false)
        (due_models now tick
          (probe_batch parse p s
            (map (λ b. b.0) before ++ m ∷ ms)
            (map (λ b. b.1) before ++ a ∷ attempts)).0
          r)
unfolding probe_batch
due_models-rests parse p s [] m ms a attempts now tick r once h =
    first-rests parse p s m ms a attempts now tick r once h
due_models-rests parse p s ((x, b) ∷ before) m ms a attempts now tick r once h =
    due_models-rests parse (record p { last_probe_at = put p.last_probe_at x b.tick })
      (apply_outcome parse b.now b.jitter s x (outcome_of b.reply)) before m ms a attempts now tick
      r once h

-- A probe that works, of a model whose provider is not denied, makes the model available at every
-- instant, lifts the global gate, and counts one promotion; no model is disabled.
pub apply_outcome-heals :
    (parse : Parser) (now jitter t : ℕ) (s : Probed) (m : String)
    → is_denied (normalize_provider (before b'/' m)) ≡ false
    → str_eq m "" ≡ false
    → (is_model_available t (apply_outcome parse now jitter s m works).registry m ≡ true)
      × (is_global_gated t (apply_outcome parse now jitter s m works).registry ≡ false)
      × ((apply_outcome parse now jitter s m works).cooldowns_promoted ≡ suc s.cooldowns_promoted)
      × ((apply_outcome parse now jitter s m works).disables ≡ s.disables)
unfolding apply_outcome
apply_outcome-heals parse now jitter t s m d n =
    let frees = mark_healthy-frees now s.registry (before b'/' m) m d n t refl in
    (frees.0, frees.1, refl, refl)

-- The catalog is asked to disable a model exactly when a probe of it fails and leaves it with 30
-- failures or more.
pub apply_outcome-disables :
    (parse : Parser) (now jitter status : ℕ) (s : Probed) (m body : String)
    → (apply_outcome parse now jitter s m (fails status body)).disables ≡ (
        if leb 30 (
          failures_of
            (get_model (apply_outcome parse now jitter s m (fails status body)).registry m))
        then s.disables ++ (before b'/' m, m) ∷ []
        else s.disables)
unfolding apply_outcome
apply_outcome-disables parse now jitter status s m body =
    let r = mark_error now jitter s.registry (before b'/' m) (parse status body) (some m) in
    elim (Bool-cases (leb 30 (failures_of (get_model r m)))) [
      | inl e ↦ rw (e, e) refl
      | inr e ↦ rw (e, e) refl
    ]
