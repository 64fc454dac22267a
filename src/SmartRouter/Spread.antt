-- ===== src/SmartRouter/Spread.antt =====
-- smart_router.py: `_spread_select` and `best_model`. The lock makes each selection one step. A time
-- is a count of microseconds of the monotonic clock, 0 for a provider that was never selected.
use provider_health_daemon.Base.{
  ℕ, ◌+◌, ◌*◌, String, Bool, true, false, Option, none, some, List, [], ◌∷◌, if◌then◌else◌, ltb,
  leb, filter, or_else,
}
use provider_health_daemon.Base.Dict.{Dict, get, put}
use provider_health_daemon.Base.Sorting.{sort}
use provider_health_daemon.Registry.{Registry}
use provider_health_daemon.SmartRouter.Tables.{spread_band}
use provider_health_daemon.SmartRouter.Rank.{Context, Ranked, rank_models}
pub mod Rotation

-- What the usage cache answers: the requests of today by provider, or an exception.
pub data UsageAnswer : Type 0 where
  requests : Dict ℕ → UsageAnswer
  raised : UsageAnswer

-- No usage if there is no cache, if the feature is off, or if the cache fails.
unfoldable pub usage_of : Bool → Option UsageAnswer → Dict ℕ
usage_of enabled none = []
usage_of enabled (some raised) = []
usage_of true (some (requests u)) = u
usage_of false (some (requests u)) = []

unfoldable pub in_band : ℕ → Ranked → Bool
in_band best r = leb r.total (best + spread_band * 10)

abbrev pub first_or : Ranked → List Ranked → List Ranked
first_or r [] = r ∷ []
first_or r (x ∷ xs) = x ∷ xs

-- The candidates: those within the band of the best, which is first.
unfoldable pub band : Ranked → List Ranked → List Ranked
unfolding in_band filter
band best rest = first_or best (filter (in_band best.total) (best ∷ rest))

unfoldable pub used_today : Dict ℕ → Ranked → ℕ
used_today usage r = if ltb 0 (or_else (get usage r.provider) 0) then 1 else 0

unfoldable pub last_use : Dict ℕ → Ranked → ℕ
last_use last r = or_else (get last r.provider) 0

-- `_sort_key`: those that were not used today first, then the least recently selected.
unfoldable pub goes_first : Dict ℕ → Dict ℕ → Ranked → Ranked → Bool
unfolding used_today last_use
goes_first usage last a b =
    if ltb (used_today usage a) (used_today usage b)
    then true
    else if ltb (used_today usage b) (used_today usage a)
    then false
    else ltb (last_use last a) (last_use last b)

abbrev pub head_or : Ranked → List Ranked → Ranked
head_or r [] = r
head_or r (x ∷ xs) = x

unfoldable pub spread_choice : Dict ℕ → Dict ℕ → Ranked → List Ranked → Ranked
unfolding goes_first band
spread_choice usage last best rest = head_or best (sort (goes_first usage last) (band best rest))

-- The new times of selection, and the choice.
unfoldable pub spread_select : ℕ → Dict ℕ → Dict ℕ → Ranked → List Ranked → Dict ℕ × Ranked
unfolding spread_choice
spread_select now usage last best rest =
    let chosen = spread_choice usage last best rest in (put last chosen.provider now, chosen)

-- Where only one model is ranked it is taken, and its time is not noted.
abbrev pub select : ℕ → Dict ℕ → Dict ℕ → List Ranked → Dict ℕ × Option String
select now usage last [] = (last, none)
select now usage last (best ∷ []) = (last, some best.model_id)
select now usage last (best ∷ next ∷ rest) =
    let (last', chosen) = spread_select now usage last best (next ∷ rest) in
    (last', some chosen.model_id)

-- `best_model`: the registry, the times of selection, and the model. `tick` is the monotonic clock.
unfoldable pub best_model :
    Context
    → ℕ
    → Dict ℕ
    → Dict ℕ
    → Option Registry
    → List String
    → Option Registry × Dict ℕ × Option String
unfolding rank_models spread_select
best_model c tick usage last health ids =
    let (health', ranked) = rank_models c health ids in
    let (last', chosen) = select tick usage last ranked in (health', last', chosen)
