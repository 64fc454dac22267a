-- ===== src/Routers/Order.antt =====
-- router_registry.py: which routers `get_healthy_routers` returns, and in which order.
use provider_health_daemon.Base.{
  ℕ, true, false, ◌≡◌, arith, if◌then◌else◌, ◌∙◌, sum_by, All, All-filter_test, sum_by-filter,
}
use provider_health_daemon.Base.Dict.{values}
use provider_health_daemon.Base.Sorting.{Sorted, IsOrder, All-sort, sort-Sorted, sum_by-sort}
use provider_health_daemon.Routers.{Routers, RouterState, is_healthy, precedes, get_healthy_routers}

precedes_asym : (r q : RouterState) → precedes q r ≡ true → precedes r q ≡ false
unfolding precedes
precedes_asym r q h = ground arith

precedes_trans :
    (r q s : RouterState) → precedes q r ≡ false → precedes s q ≡ false → precedes s r ≡ false
unfolding precedes
precedes_trans r q s h k = ground arith

precedes-IsOrder : IsOrder precedes
precedes-IsOrder = record { asym = precedes_asym; trans = precedes_trans }

-- The routers that are offered are all healthy; they are in order of priority, the heavier first
-- among equals; and they are the registry's healthy routers, each as often as there (whatever is
-- counted).
pub get_healthy_routers-Sorted :
    (rs : Routers)
    → All (λ r. is_healthy r ≡ true) (get_healthy_routers rs)
      × Sorted precedes (get_healthy_routers rs)
      × ((f : RouterState → ℕ)
          → sum_by f (get_healthy_routers rs)
            ≡ sum_by (λ r. if is_healthy r then f r else 0) (values rs))
unfolding get_healthy_routers
get_healthy_routers-Sorted rs = (
  All-sort precedes _ _ (All-filter_test is_healthy (values rs)),
  sort-Sorted precedes precedes-IsOrder _,
  λ f. sum_by-sort precedes f _ ∙ sum_by-filter is_healthy f (values rs),
)
