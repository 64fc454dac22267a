-- ===== src/Selector/Selection.antt =====
-- meta_router.py: which router `select_router` returns, and when it returns one.
use mathlib.Core.Path.{transport}
use provider_health_daemon.Base.{
  suc, ◌+◌, ◌≤◌, String, Bool, true, false, List, [], ◌∷◌, ◌≡◌, refl, ap, sym, ◌∙◌, ◌⊎◌, inl, inr,
  arith, Bool-cases, ◌==◌, filter, length, elem, not, ltb, ◌&&◌,
}
use provider_health_daemon.Base.Dict.{Dict}
use provider_health_daemon.Routers.{RouterState, get_healthy_routers}
use provider_health_daemon.Policy.{DataSensitivity}
use provider_health_daemon.Selector.{Selector, Result, ok, raise, eligible_routers}
use provider_health_daemon.Selector.Weights.{Member, pick_weighted-Member}
use provider_health_daemon.Selector.Choice.{
  without, steady, is_flapping, pick_in, choose, select_from, select_router, touch_all,
}
use provider_health_daemon.Selector.Eligible.{Within, Member-filter, eligible_routers-Within}

length-split :
    (p : RouterState → Bool) (rs : List RouterState)
    → length (filter p rs) + length (filter (λ r. not (p r)) rs) ≡ length rs
unfolding filter
length-split p [] = omega arith
length-split p (r ∷ rs) = ground (arith, length-split p rs)

-- The router is not flapping, or none of the routers is steady.
abbrev pub Steady : Selector → List RouterState → RouterState → Type 0
Steady s rs b = (is_flapping s b ≡ false) ⊎ (length rs ≤ length (filter (is_flapping s) rs))

not-true : (b : Bool) → not b ≡ true → b ≡ false
not-true b h = ground arith

none_passes :
    (p : RouterState → Bool) (rs : List RouterState) (b : RouterState)
    → length (filter p rs) ≡ 0
    → Member b rs
    → p b ≡ false
unfolding filter
none_passes p [] b h m = elim m [ ]
none_passes p (r ∷ rs) b h (inl e) = ap p e ∙ ground arith
none_passes p (r ∷ rs) b h (inr m) = none_passes p rs b (ground arith) m

-- When the filter is not used, all are flapping or none is.
unsplit :
    (s : Selector) (rs : List RouterState) (b : RouterState)
    → (length (filter (is_flapping s) rs) ≡ 0) ⊎ (length rs ≤ length (filter (is_flapping s) rs))
    → Member b rs
    → Steady s rs b
unsplit s rs b (inl z) m = inl (none_passes (is_flapping s) rs b z m)
unsplit s rs b (inr l) m = inr l

-- The routers that are not flapping, if there is one.
steady-Member :
    (s : Selector) (rs : List RouterState)
    → 1 ≤ length rs
    → (1 ≤ length (steady s rs))
      × ((b : RouterState) → Member b (steady s rs) → Member b rs × Steady s rs b)
unfolding steady
steady-Member s rs h =
    let flapping = length (filter (is_flapping s) rs) in
    let split = length-split (is_flapping s) rs in
    elim (Bool-cases (ltb 0 flapping && ltb flapping (length rs))) [
      | inl e ↦
          rw e (ground arith, λ b m. let (n, t) = Member-filter _ b rs m in (n, inl (not-true _ t)))
      | inr e ↦ rw e (h, λ b m. (m, unsplit s rs b (ground arith) m))
    ]

-- The answer is a refusal, or a router of the list whose name is not excluded.
abbrev pub Among : List RouterState → List String → Result RouterState → Type 0
Among rs excluded (raise f) = Unit
Among rs excluded (ok r) = Member r rs × (elem r.name excluded ≡ false)

choose-ok :
    (policies : Dict Bool) (model : String) (sensitivity : DataSensitivity) (s : Selector)
    (rs : List RouterState)
    → 1 ≤ length rs
    → (b : RouterState) × ((choose policies model sensitivity (pick_in s rs)).1 ≡ ok b)
      × Member b rs
unfolding choose pick_in
choose-ok policies model sensitivity s [] h = ground arith
choose-ok policies model sensitivity s (r ∷ rs) h =
    let (b, e, m) = pick_weighted-Member s.current_weights r rs in
    (b, ap (λ o. (choose policies model sensitivity ((pick_in s (r ∷ rs)).0, o)).1) e, m)

length-without_nothing : (rs : List RouterState) → length (without [] rs) ≡ length rs
unfolding without filter elem
length-without_nothing [] = refl
length-without_nothing (r ∷ rs) = ap suc (length-without_nothing rs)

some_excluded :
    (excluded : List String) (rs : List RouterState)
    → 1 ≤ length rs
    → length (without excluded rs) ≡ 0
    → 1 ≤ length excluded
some_excluded [] rs h k = let all = length-without_nothing rs in omega arith
some_excluded (x ∷ xs) rs h k = omega arith

module _ (policies : Dict Bool) (model : String) (sensitivity : DataSensitivity)
    (excluded : List String) where
  select_from-ok :
      (s : Selector) (rs : List RouterState)
      → 1 ≤ length (without excluded rs)
      → (b : RouterState) × ((select_from policies model sensitivity excluded (s, ok rs)).1 ≡ ok b)
        × Member b (steady s (without excluded rs))
  unfolding select_from
  select_from-ok s rs h =
      let left = without excluded rs in
      let guard : (ltb 0 (length excluded) && not (ltb 0 (length left))) ≡ false = ground arith in
      rw guard (
        choose-ok policies model sensitivity (record s { streaks = touch_all s.streaks left })
          (steady s left) (steady-Member s left h).0)

  select_from-none :
      (s : Selector) (rs hs : List RouterState)
      → 1 ≤ length rs
      → length (without excluded rs) ≡ 0
      → Among hs excluded (select_from policies model sensitivity excluded (s, ok rs)).1
  unfolding select_from
  select_from-none s rs hs h k =
      let guard : (ltb 0 (length excluded) && not (ltb 0 (length (without excluded rs)))) ≡ true =
        let some_name = some_excluded excluded rs h k in ground arith in
      rw guard tt

  left-Among :
      (hs rs : List RouterState) (b : RouterState)
      → ((q : RouterState) → Member q rs → Member q hs)
      → Member b (without excluded rs)
      → Member b hs × (elem b.name excluded ≡ false)
  unfolding without
  left-Among hs rs b h m =
      let (n, t) = Member-filter (λ r. not (elem r.name excluded)) b rs m in (h b n, not-true _ t)

  select_from-Among :
      (hs : List RouterState) (p : Selector × Result (List RouterState))
      → Within hs p.1
      → Among hs excluded (select_from policies model sensitivity excluded p).1
  unfolding select_from
  select_from-Among hs (s, raise f) h = tt
  select_from-Among hs (s, ok rs) h = elim (Bool-cases (length (without excluded rs) == 0)) [
    | inl e ↦ select_from-none s rs hs h.0 (ground arith)
    | inr e ↦
        let (b, p, m) = select_from-ok s rs (ground arith) in
        let (n, t) = (steady-Member s (without excluded rs) (ground arith)).1 b m in
        transport (ap (Among hs excluded) (sym p)) (left-Among hs rs b h.1 n)
  ]

  -- The router that is selected is one of the registry's healthy routers, and not an excluded one.
  pub select_router-Among :
      (s : Selector)
      → Among
          (get_healthy_routers s.registry)
          excluded
          (select_router policies model sensitivity s excluded).1
  unfolding select_router
  select_router-Among s =
      select_from-Among (get_healthy_routers s.registry) _
        (eligible_routers-Within policies s model sensitivity)

  -- If an eligible router is left after the exclusions, one of those left is selected, one that is not flapping if there is any.
  pub select_router-ok :
      (s s' : Selector) (rs : List RouterState)
      → eligible_routers policies s model sensitivity ≡ (s', ok rs)
      → 1 ≤ length (without excluded rs)
      → (b : RouterState) × ((select_router policies model sensitivity s excluded).1 ≡ ok b)
        × Member b (without excluded rs)
        × Steady s' (without excluded rs) b
  unfolding select_router
  select_router-ok s s' rs e h =
      let (b, p, m) = select_from-ok s' rs h in
      let (n, t) = (steady-Member s' (without excluded rs) h).1 b m in
      (b, ap (λ o. (select_from policies model sensitivity excluded o).1) e ∙ p, n, t)
