-- ===== src/Selector/Privacy.antt =====
-- meta_router.py with data_policy.py: what keeps data from models that may train on it.
use provider_health_daemon.Base.{
  String, Bool, false, List, [], ◌∷◌, ◌≡◌, ◌≢◌, refl, ap, filter, str_eq, ◌||◌, arith, eq_iff,
}
use provider_health_daemon.Base.Dict.{Dict}
use provider_health_daemon.Routers.{RouterState, get_healthy_routers}
use provider_health_daemon.Policy.{
  training_possible, DataSensitivity, public, internal, sensitive, may_train, allowed,
  classify_model_policy,
}
use provider_health_daemon.Selector.{
  Selector, raise, policy_unavailable, is_public, nonempty_or, policy_filter, eligible_after,
  eligible_routers,
}
use provider_health_daemon.Selector.Choice.{select_from, select_router, fallback_from, fallback}

refused :
    (sensitivity : DataSensitivity)
    → sensitivity ≢ public
    → allowed training_possible sensitivity ≡ false
unfolding allowed may_train
refused public h = ground arith
refused internal h = refl
refused sensitive h = refl

not_public : (sensitivity : DataSensitivity) → sensitivity ≢ public → is_public sensitivity ≡ false
unfolding is_public
not_public public h = ground arith
not_public internal h = refl
not_public sensitive h = refl

filter_none : (p : Bool) (rs : List RouterState) → p ≡ false → filter (λ r. p) rs ≡ []
unfolding filter
filter_none p [] h = refl
filter_none p (r ∷ rs) h = rw h (filter_none p rs h)

module _ (policies : Dict Bool) (s : Selector) (model : String)
    (sensitivity : DataSensitivity) where
  policy_filter-refuses :
      model ≢ ""
      → sensitivity ≢ public
      → classify_model_policy policies model ≡ training_possible
      → policy_filter policies model sensitivity (get_healthy_routers s.registry)
        ≡ raise policy_unavailable
  unfolding policy_filter nonempty_or
  policy_filter-refuses m h k =
      let guard : (str_eq model "" || is_public sensitivity) ≡ false =
        rw (not_public sensitivity h) (ground (arith, eq_iff model "")) in
      rw (guard, k, refused sensitivity h, filter_none false (get_healthy_routers s.registry) refl)
        refl

  -- A request with internal or sensitive data for a named model that may train on it is refused by
  -- the policy, both as a first choice and as a fallback, whatever is excluded.
  pub select_router-refuses :
      (excluded : List String)
      → model ≢ ""
      → sensitivity ≢ public
      → classify_model_policy policies model ≡ training_possible
      → ((select_router policies model sensitivity s excluded).1 ≡ raise policy_unavailable)
        × ((fallback policies model sensitivity s excluded).1 ≡ raise policy_unavailable)
  unfolding select_router fallback eligible_routers eligible_after select_from fallback_from
  select_router-refuses excluded m h k =
      let e = policy_filter-refuses m h k in
      (
        ap (λ o. (select_from policies model sensitivity excluded (eligible_after s model o)).1) e,
        ap (λ o. (fallback_from policies model sensitivity excluded (eligible_after s model o)).1)
            e,
      )
