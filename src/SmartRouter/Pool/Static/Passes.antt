-- ===== src/SmartRouter/Pool/Static/Passes.antt =====
-- smart_router.py: what `_filter_static_models` keeps.
use provider_health_daemon.Base.{
  ℕ, ◌≡◌, refl, ◌∙◌, String, Bool, true, false, not, ◌&&◌, Option, List, [], ◌∷◌, if◌then◌else◌,
  elem, filter, All, All-filter_test, Bool-cases, inl, inr, arith,
}
use provider_health_daemon.Base.Dict.{Dict}
use provider_health_daemon.Base.Sets.{add, add_all, All-add_all, Distinct, Distinct-add_all}
use provider_health_daemon.SmartRouter.Pool.{Pool, Connection, is_fresh, get_locked_model_ids}
use provider_health_daemon.SmartRouter.Pool.Static.{
  is_known_good, is_free, is_allowed, is_chat_model, static_verdict, static_loop,
  filter_static_models,
}

-- The locks, and nothing else, may be asked for.
pub record OnlyLocks (p p' : Pool) : Type 0 where
  pub combo : p'.combo ≡ p.combo
  pub disabled : p'.disabled ≡ p.disabled
  pub counts : p'.counts ≡ p.counts
  pub disk : p'.disk ≡ p.disk

module _ (now : ℕ) (connections : Option (Dict Connection)) where
  abbrev pub locked_ids : Pool → List String
  locked_ids p = (get_locked_model_ids now connections p).1

  -- To ask again in the same call gives the same locks.
  locked_again : (p : Pool) → locked_ids (get_locked_model_ids now connections p).0 ≡ locked_ids p
  unfolding get_locked_model_ids is_fresh
  locked_again p = ground arith

  -- What passes, given the locked ids.
  abbrev pub passes : List String → String → Bool
  passes locked mid =
      is_known_good mid
      && not (elem mid locked)
      && is_free mid
      && is_allowed mid
      && is_chat_model mid

  verdict_lem :
      (p : Pool) (mid : String)
      → ((static_verdict now connections p mid).1 ≡ passes (locked_ids p) mid)
        × (locked_ids (static_verdict now connections p mid).0 ≡ locked_ids p)
  unfolding static_verdict
  verdict_lem p mid = elim (Bool-cases (is_known_good mid)) [
    | inl e ↦ rw e (refl, locked_again p)
    | inr e ↦ rw e (refl, refl)
  ]

  add_all_if :
      (b : Bool) (out xs : List String) (mid : String)
      → add_all (if b then add out mid else out) xs ≡ add_all out (if b then mid ∷ xs else xs)
  unfolding add_all
  add_all_if true out xs mid = refl
  add_all_if false out xs mid = refl

  loop_lem :
      (p : Pool) (out mids : List String)
      → (static_loop now connections p out mids).1
        ≡ add_all out (filter (passes (locked_ids p)) mids)
  unfolding static_loop filter add_all
  loop_lem p out [] = refl
  loop_lem p out (mid ∷ mids) =
      let v = verdict_lem p mid in
      let p' = (static_verdict now connections p mid).0 in
      loop_lem p' (if (static_verdict now connections p mid).1 then add out mid else out) mids
      ∙ rw (v.0, v.1)
          (add_all_if (passes (locked_ids p) mid) out (filter (passes (locked_ids p)) mids) mid)

  -- The locks are asked for while the list is passed through, and what is kept is what passes given
  -- the locks at the start, each model once.
  pub filter_static_models_lem :
      (p : Pool) (mids : List String)
      → (filter_static_models now connections p mids).1
        ≡ add_all [] (filter (passes (locked_ids p)) mids)
  unfolding filter_static_models
  filter_static_models_lem p mids = loop_lem p [] mids

-- Every model that is kept is known to be good and not locked, is free where its provider serves only
-- the free ones, is on its provider's allowlist if there is one, and is a chat model of at least 8
-- billion parameters or of a size that its name does not tell; and none is kept twice.
pub filter_static_models-passes :
    (now : ℕ) (connections : Option (Dict Connection)) (p : Pool) (mids : List String)
    → All
        (λ m. passes now connections (locked_ids now connections p) m ≡ true)
        (filter_static_models now connections p mids).1
      × Distinct (filter_static_models now connections p mids).1
filter_static_models-passes now connections p mids =
    rw (filter_static_models_lem now connections p mids) (
      All-add_all (λ m. passes now connections (locked_ids now connections p) m ≡ true) [] _ tt
          (All-filter_test (passes now connections (locked_ids now connections p)) mids),
      Distinct-add_all [] _ tt,
    )
