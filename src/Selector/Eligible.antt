-- ===== src/Selector/Eligible.antt =====
-- meta_router.py: the routers that a request may be sent to are some of the healthy ones.
use provider_health_daemon.Base.{
  ◌≤◌, String, Bool, true, false, List, [], ◌∷◌, ◌≡◌, refl, ap, ◌∙◌, inl, inr, if◌then◌else◌,
  str_eq, arith, Bool-cases, filter, length, ◌||◌,
}
use provider_health_daemon.Base.Dict.{Dict}
use provider_health_daemon.Routers.{RouterState, get_healthy_routers}
use provider_health_daemon.ModelIds.{ModelIdMapper}
use provider_health_daemon.Policy.{DataSensitivity}
use provider_health_daemon.Selector.{
  Selector, Failure, Result, ok, raise, policy_filter, is_public, nonempty_or, or_next,
  service_unavailable, by_model, eligible_after, eligible_routers,
}
use provider_health_daemon.Selector.Weights.{Member}

Member-cons_if :
    (p : RouterState → Bool) (c : Bool) (b r : RouterState) (rs kept : List RouterState)
    → p r ≡ c
    → (Member b kept → Member b rs × (p b ≡ true))
    → Member b (if c then r ∷ kept else kept)
    → Member b (r ∷ rs) × (p b ≡ true)
Member-cons_if p true b r rs kept e f (inl q) = (inl q, ap p q ∙ e)
Member-cons_if p true b r rs kept e f (inr m) = (inr (f m).0, (f m).1)
Member-cons_if p false b r rs kept e f m = (inr (f m).0, (f m).1)

pub Member-filter :
    (p : RouterState → Bool) (b : RouterState) (rs : List RouterState)
    → Member b (filter p rs)
    → Member b rs × (p b ≡ true)
unfolding filter
Member-filter p b [] m = elim m [ ]
Member-filter p b (r ∷ rs) m =
    Member-cons_if p (p r) b r rs (filter p rs) refl (Member-filter p b rs) m

-- The answer is a refusal, or some of the routers, at least one.
abbrev pub Within : List RouterState → Result (List RouterState) → Type 0
Within hs (raise f) = Unit
Within hs (ok rs) = (1 ≤ length rs) × ((b : RouterState) → Member b rs → Member b hs)

nonempty_or-Within :
    (f : Failure) (hs rs : List RouterState)
    → ((b : RouterState) → Member b rs → Member b hs)
    → Within hs (nonempty_or f rs)
unfolding nonempty_or
nonempty_or-Within f hs [] h = tt
nonempty_or-Within f hs (r ∷ rs) h = (omega arith, h)

filter-Within :
    (f : Failure) (p : RouterState → Bool) (hs : List RouterState)
    → Within hs (nonempty_or f (filter p hs))
filter-Within f p hs = nonempty_or-Within f hs (filter p hs) (λ b m. (Member-filter p b hs m).0)

or_next-Within :
    (p : RouterState → Bool) (hs : List RouterState) (next : Result (List RouterState))
    → Within hs next
    → Within hs (or_next (filter p hs) next)
unfolding or_next
or_next-Within p hs next h = go (filter p hs) (λ b m. (Member-filter p b hs m).0)
  where
    go :
        (rs : List RouterState)
        → ((b : RouterState) → Member b rs → Member b hs)
        → Within hs (or_next rs next)
    go [] f = h
    go (r ∷ rs) f = (omega arith, f)

Within-all :
    (hs rs : List RouterState) (o : Result (List RouterState))
    → ((b : RouterState) → Member b rs → Member b hs)
    → Within rs o
    → Within hs o
Within-all hs rs (raise f) h w = tt
Within-all hs rs (ok qs) h w = (w.0, λ b m. h b (w.1 b m))

by_model-Within :
    (m : ModelIdMapper) (canonical model : String) (hs : List RouterState)
    → Within hs (by_model m canonical model hs)
unfolding by_model
by_model-Within m canonical model hs =
    or_next-Within _ hs _ (or_next-Within _ hs _ (filter-Within service_unavailable _ hs))

eligible_after-Within :
    (s : Selector) (model : String) (hs rs : List RouterState)
    → ((b : RouterState) → Member b rs → Member b hs)
    → Within hs (eligible_after s model (ok rs)).1
unfolding eligible_after
eligible_after-Within s model hs [] h = tt
eligible_after-Within s model hs (r ∷ rs) h = elim (Bool-cases (str_eq model "")) [
  | inl e ↦ rw e (omega arith, h)
  | inr e ↦ rw e (Within-all hs (r ∷ rs) _ h (by_model-Within _ _ model (r ∷ rs)))
]

eligible_kept-Within :
    (s : Selector) (model : String) (hs : List RouterState) (f : Failure) (rs : List RouterState)
    → ((b : RouterState) → Member b rs → Member b hs)
    → Within hs (eligible_after s model (nonempty_or f rs)).1
unfolding nonempty_or eligible_after
eligible_kept-Within s model hs f [] h = tt
eligible_kept-Within s model hs f (r ∷ rs) h = eligible_after-Within s model hs (r ∷ rs) h

pub eligible_routers-Within :
    (policies : Dict Bool) (s : Selector) (model : String) (sensitivity : DataSensitivity)
    → Within (get_healthy_routers s.registry) (eligible_routers policies s model sensitivity).1
unfolding eligible_routers policy_filter
eligible_routers-Within policies s model sensitivity =
    let hs = get_healthy_routers s.registry in
    elim (Bool-cases (str_eq model "" || is_public sensitivity)) [
      | inl e ↦ rw e (eligible_after-Within s model hs hs (λ b m. m))
      | inr e ↦ rw e (eligible_kept-Within s model hs _ _ (λ b m. (Member-filter _ b hs m).0))
    ]
