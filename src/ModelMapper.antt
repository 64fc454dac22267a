-- ===== src/ModelMapper.antt =====
-- model_mapper.py: `ModelMapper`, which resolves a generic alias to the model id of a router.
use mathlib.Core.List.{flat_map}
use provider_health_daemon.Base.{
  String, Bool, true, false, ◌||◌, ◌&&◌, Option, none, some, List, [], ◌∷◌, ◌≡◌, refl, map,
  if◌then◌else◌, filter, str_eq, is_some, or_else, drop_suffix, eq_iff, Bool-cases, inl, inr,
}
use provider_health_daemon.Base.Dict.{Dict, get, put, get-put, get-empty}
use provider_health_daemon.SmartRouter.Names.{split, last_part, is_slash}

abbrev pub RouterMap : Type 0
RouterMap = Dict (Dict String)

abbrev in_router : Option (Dict String) → String → Option String
in_router none alias = none
in_router (some models) alias = get models alias

unfoldable pub resolve : RouterMap → String → String → Option String
resolve m router alias = in_router (get m router) alias

abbrev found_in : String → Option String → Option (String × String) → Option (String × String)
found_in router none rest = rest
found_in router (some id) rest = some (router, id)

-- The first router that knows the alias.
unfoldable pub resolve_any : RouterMap → String → Option (String × String)
resolve_any [] alias = none
resolve_any ((router, models) ∷ m) alias = found_in router (get models alias) (resolve_any m alias)

unfoldable pub register : RouterMap → String → String → String → RouterMap
register m router alias id = put m router (put (or_else (get m router) []) alias id)

unfoldable pub aliases_for : RouterMap → String → Dict String
aliases_for m router = or_else (get m router) []

abbrev with_alias : String → String × Dict String → List (String × String)
with_alias alias (router, models) = map (λ e. (router, e.1)) (filter (λ e. str_eq e.0 alias) models)

unfoldable pub routers_for : RouterMap → String → List (String × String)
unfolding filter
routers_for m alias = flat_map (with_alias alias) m

-- The same id, or one that ends with the last part of it.
unfoldable pub is_id_of : String → String → Bool
unfolding split last_part
is_id_of model_id mid =
    str_eq mid model_id || is_some (drop_suffix (last_part (split is_slash mid)) model_id)

unfoldable pub alias_in : Dict String → String → Option String
unfolding is_id_of
alias_in [] model_id = none
alias_in ((alias, mid) ∷ models) model_id =
    let rest = alias_in models model_id in if is_id_of model_id mid then some alias else rest

abbrev first_found : Option String → Option String → Option String
first_found none rest = rest
first_found (some alias) rest = some alias

unfoldable pub reverse_map : RouterMap → String → Option String
unfolding alias_in
reverse_map [] model_id = none
reverse_map ((router, models) ∷ m) model_id =
    first_found (alias_in models model_id) (reverse_map m model_id)

in_router_else : (o : Option (Dict String)) (a : String) → get (or_else o []) a ≡ in_router o a
in_router_else none a = get-empty a
in_router_else (some models) a = refl

in_router_if :
    (b : Bool) (v : Dict String) (o : Option (Dict String)) (a : String)
    → in_router (if b then some v else o) a ≡ (if b then get v a else in_router o a)
in_router_if true v o a = refl
in_router_if false v o a = refl

-- An alias that is registered for a router resolves to its id there; every other alias of that router,
-- and every alias of another router, resolves as before.
pub resolve-register :
    (m : RouterMap) (router alias id r a : String)
    → resolve (register m router alias id) r a
      ≡ (if str_eq router r && str_eq alias a then some id else resolve m r a)
unfolding resolve register
resolve-register m router alias id r a =
    let models = or_else (get m router) [] in
    rw
      (
        get-put m router r (put models alias id),
        in_router_if (str_eq router r) (put models alias id) (get m r) a,
        get-put models alias a id,
        in_router_else (get m router) a,
      )
      (elim (Bool-cases (str_eq router r)) [
        | inl e ↦ rw (e, (eq_iff router r).0 e) refl
        | inr e ↦ rw e refl
      ])
