-- ===== src/Registry/Cleanup/Gaps.antt =====
-- Where `cleanup_expired` raises, and where it changes the registry without saving it.
use provider_health_daemon.Base.{
  ℕ, String, true, false, none, some, [], ◌∷◌, ◌++◌, ◌≡◌, refl, ◌∙◌, ap, arith, All,
}
use provider_health_daemon.Base.Dict.{Dict}
use provider_health_daemon.Clock.{malformed}
use provider_health_daemon.Cooldown.{is_expired}
use provider_health_daemon.Registry.{Registry, Entry, probing}
use provider_health_daemon.Registry.Cleanup.{
  is_garbage, Fate, kept, replaced, garbage, orphaned, fate, Swept, sweep_providers, sweep_models,
  cleanup_expired, orphan_round, provider_round, is_malformed,
}

raised-round :
    (k : String) (e : Entry) (d : Dict Entry) (rest : Swept) (f : Fate)
    → rest.raised ≡ true
    → (provider_round k e d rest f).raised ≡ true
raised-round k e d rest kept h = h
raised-round k e d rest (replaced e') h = h
raised-round k e d rest garbage h = h
raised-round k e d rest orphaned h = ground arith

-- A probing entry whose text for the end is malformed.
pub record IsBroken (e : Entry) : Type 0 where
  pub status : e.status ≡ some probing
  pub until : e.until ≡ some malformed

fate-broken : (now : ℕ) (e : Entry) → IsBroken e → fate now e ≡ orphaned
unfolding fate is_garbage is_expired
fate-broken now e b = ground arith

sweep-broken :
    (now : ℕ) (pre post : Dict Entry) (k : String) (e : Entry)
    → IsBroken e
    → (sweep_providers now (pre ++ (k, e) ∷ post)).raised ≡ true
unfolding sweep_providers
sweep-broken now [] post k e b =
    ap (λ f. (provider_round k e post (sweep_providers now post) f).raised) (fate-broken now e b)
    ∙ ap (λ m. (orphan_round m post (sweep_providers now post)).raised) (ap is_malformed b.until)
sweep-broken now ((j, x) ∷ pre) post k e b =
    raised-round j x (pre ++ (k, e) ∷ post) (sweep_providers now (pre ++ (k, e) ∷ post))
      (fate now x) (sweep-broken now pre post k e b)

-- One probing provider with a malformed end makes the cleanup raise: the models are not swept, and
-- nothing is saved.
pub cleanup_expired_raises :
    (now : ℕ) (r : Registry) (pre post : Dict Entry) (k : String) (e : Entry)
    → r.health.providers ≡ pre ++ (k, e) ∷ post
    → IsBroken e
    → ((cleanup_expired now r).1 ≡ none)
      × ((cleanup_expired now r).0.health.models ≡ r.health.models)
      × ((cleanup_expired now r).0.file ≡ r.file)
unfolding cleanup_expired
cleanup_expired_raises now r pre post k e providers b =
    let raised : (sweep_providers now r.health.providers).raised ≡ true =
      ap (λ d. (sweep_providers now d).raised) providers ∙ sweep-broken now pre post k e b in
    ground arith

sweep-garbage :
    (now : ℕ) (d : Dict Entry)
    → All (λ m. is_garbage m.1 ≡ true) d
    → sweep_providers now d ≡ record { entries = []; count = 0; raised = false }
unfolding sweep_providers fate
sweep-garbage now [] h = refl
sweep-garbage now ((k, e) ∷ d) h = rw (h.0, sweep-garbage now d h.1) refl

-- Where every entry of a provider is garbage and there are no models, the cleanup deletes the
-- entries from memory and leaves the file as it was.
pub garbage_unsaved :
    (now : ℕ) (r : Registry)
    → All (λ m. is_garbage m.1 ≡ true) r.health.providers
    → r.health.models ≡ []
    → ((cleanup_expired now r).0.health.providers ≡ []) × ((cleanup_expired now r).0.file ≡ r.file)
unfolding cleanup_expired sweep_models
garbage_unsaved now r h none_left =
    let swept = sweep-garbage now r.health.providers h in
    let models : sweep_models now r.health.models
        ≡ record { entries = []; count = 0; raised = false } =
      ap (sweep_models now) none_left in
    rw (swept, models) (refl, refl)
