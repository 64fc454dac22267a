-- ===== src/SmartRouter/Pool/Catalog.antt =====
-- smart_router.py: `_fetch_catalog_models` and `_filter_catalog_models`. An item without a textual id
-- has the id `none`; a catalog that cannot be fetched, or has not the shape of one, is `none`.
use Prim.Native.Nat.{Ordering}
use Prim.Native.String.{compare as compare_text}
use provider_health_daemon.Base.{
  ℕ, ◌+◌, ◌-◌, ◌*◌, min, String, Bool, true, false, not, ◌&&◌, Option, none, some, List, [], ◌∷◌,
  ◌++◌, map, if◌then◌else◌, ltb, elem, before, take, or_else,
}
use provider_health_daemon.Base.Dict.{Dict, get, put}
use provider_health_daemon.Base.Sorting.{sort}
use provider_health_daemon.SmartRouter.Tables.{
  provider_priority, per_provider_limit, max_combo_models,
}
use provider_health_daemon.SmartRouter.Pool.{
  Pool, Connection, get_locked_model_ids, get_connection_counts,
}
use provider_health_daemon.SmartRouter.Pool.Static.{is_known_good, is_allowed, is_chat_model}
pub mod Limits

pub record Item : Type 0 where
  pub id : Option String
  pub context : ℕ

-- The verdict on one id: that of the static filter, but for the free tiers.
unfoldable pub catalog_verdict : ℕ → Option (Dict Connection) → Pool → String → Pool × Bool
unfolding is_known_good is_allowed is_chat_model
catalog_verdict now connections p mid =
    if is_known_good mid
    then (let (p', locked) = get_locked_model_ids now connections p in
        (p', not (elem mid locked) && is_allowed mid && is_chat_model mid))
    else (p, false)

abbrev pub Groups : Type 0
Groups = Dict (List (ℕ × String))

-- `per_provider.setdefault(provider, []).append(...)`
unfoldable pub group : Groups → String → ℕ × String → Groups
group g provider m = put g provider (or_else (get g provider) [] ++ m ∷ [])

abbrev pub place_item :
    ℕ → Option (Dict Connection) → Pool → Groups → ℕ → Option String → Pool × Groups
place_item now connections p g context none = (p, g)
place_item now connections p g context (some mid) =
    let (p', passes) = catalog_verdict now connections p mid in
    (p', if passes then group g (before b'/' mid) (context, mid) else g)

unfoldable pub group_items :
    ℕ → Option (Dict Connection) → Pool → Groups → List Item → Pool × Groups
unfolding catalog_verdict group
group_items now connections p g [] = (p, g)
group_items now connections p g (it ∷ items) =
    let (p', g') = place_item now connections p g it.context it.id in
    group_items now connections p' g' items

abbrev text_lt : String → String → Bool
text_lt s t = elim (compare_text s t) [ Ordering.lt ↦ true | _ ↦ false ]

-- `sort(reverse=True)` on pairs: the larger context first, then the later id.
unfoldable pub is_larger : ℕ × String → ℕ × String → Bool
is_larger (m, s) (n, t) = if ltb n m then true else if ltb m n then false else text_lt t s

-- A provider with more accounts contributes more models.
unfoldable pub limit_of : Dict ℕ → String → ℕ
limit_of counts provider =
    min (per_provider_limit + (or_else (get counts provider) 1 - 1) * 5) max_combo_models

unfoldable pub contribution : Dict ℕ → String → List (ℕ × String) → List (ℕ × String)
unfolding is_larger limit_of
contribution counts provider models =
    map (λ m. (or_else (get provider_priority provider) 50, m.1))
      (take (limit_of counts provider) (sort is_larger models))

unfoldable pub contributions : Dict ℕ → Groups → List (ℕ × String)
unfolding contribution
contributions counts [] = []
contributions counts ((provider, models) ∷ g) =
    contribution counts provider models ++ contributions counts g

abbrev pub has_priority : ℕ × String → ℕ × String → Bool
has_priority a b = ltb a.0 b.0

unfoldable pub filter_catalog_models :
    ℕ → Option (Dict Connection) → Pool → List Item → Pool × List String
unfolding group_items contributions
filter_catalog_models now connections p items =
    let (p', g) = group_items now connections p [] items in
    let (p'', counts) = get_connection_counts now connections p' in
    (p'', map (λ m. m.1) (take max_combo_models (sort has_priority (contributions counts g))))

unfoldable pub fetch_catalog_models :
    ℕ → Option (Dict Connection) → Option (List Item) → Pool → Pool × List String
unfolding filter_catalog_models
fetch_catalog_models now connections none p = (p, [])
fetch_catalog_models now connections (some items) p = filter_catalog_models now connections p items
