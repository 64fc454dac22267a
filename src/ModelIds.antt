-- ===== src/ModelIds.antt =====
-- model_id_mapper.py: canonical model ids, and the ids under which each router knows a model.
use Prim.Native.String.{◌++◌ as append}
use provider_health_daemon.Base.{
  String, Bool, true, false, Option, none, some, List, [], ◌∷◌, map, if◌then◌else◌, filter, elem,
  drop_prefix, drop_suffix, is_some, or_else, strip, lower, str_eq, not, ◌||◌,
}
use provider_health_daemon.Base.Dict.{Dict, get, put, values, keys}
pub mod Translation

abbrev pub Catalog : Type 0
Catalog = Dict String

pub record ModelIdMapper : Type 0 where
  pub prefixes : Dict (List String)
  pub catalogs : Dict Catalog
  pub explicit : Dict (Dict String)

abbrev pub common_prefixes : List String
common_prefixes = "groq/" ∷ "nvidia/" ∷ "kr/" ∷ "anthropic/" ∷ "ollama/" ∷ []

abbrev pub router_prefixes : Dict (List String)
router_prefixes = ("9router", common_prefixes) ∷ ("omniroute", common_prefixes) ∷ ("kiro", []) ∷ []

abbrev pub router_level_ids : List String
router_level_ids =
    "main-rr" ∷ "combo-round-robin" ∷ "combo-fast" ∷ "combo-thinking" ∷ "kr/auto" ∷ []

abbrev pub new_mapper : ModelIdMapper
new_mapper = record { prefixes = router_prefixes; catalogs = []; explicit = [] }

unfoldable pub router_key : String → String
router_key name = lower (strip name)

-- `p if p.endswith("/") else p + "/"`
unfoldable pub with_slash : String → String
with_slash p = if is_some (drop_suffix "/" p) then p else append p "/"

unfoldable pub is_empty : String → Bool
is_empty s = str_eq s ""

unfoldable pub register_mapping : ModelIdMapper → String → List String → ModelIdMapper
unfolding router_key with_slash is_empty
register_mapping m router prefixes = record m {
  prefixes =
      put m.prefixes (router_key router) (map with_slash (filter (λ p. not (is_empty p)) prefixes));
}

unfoldable pub register_catalog : ModelIdMapper → String → Catalog → ModelIdMapper
unfolding router_key
register_catalog m router models = record m { catalogs = put m.catalogs (router_key router) models }

-- The value of one router in the configuration; `none` stands for a missing key or one of another
-- type, and the mappings are those of texts to texts.
pub record MappingConfig : Type 0 where
  pub prefixes : Option (List String)
  pub catalog : Option Catalog
  pub mappings : Option (Dict String)

unfoldable pub add_mappings : Dict String → Dict String → Dict String
add_mappings d [] = d
add_mappings d ((canonical, id) ∷ rest) = add_mappings (put d canonical id) rest

unfoldable pub with_prefixes : String → Option (List String) → ModelIdMapper → ModelIdMapper
with_prefixes router none m = m
with_prefixes router (some ps) m = register_mapping m router ps

unfoldable pub with_catalog : String → Option Catalog → ModelIdMapper → ModelIdMapper
with_catalog router none m = m
with_catalog router (some c) m = register_catalog m router c

unfoldable pub with_mappings : String → Option (Dict String) → ModelIdMapper → ModelIdMapper
unfolding router_key add_mappings
with_mappings router none m = m
with_mappings router (some []) m = m
with_mappings router (some (e ∷ es)) m = record m {
  explicit =
      put m.explicit (router_key router)
        (add_mappings (or_else (get m.explicit (router_key router)) []) (e ∷ es));
}

unfoldable pub load_config : ModelIdMapper → Dict MappingConfig → ModelIdMapper
unfolding with_prefixes with_catalog with_mappings
load_config m [] = m
load_config m ((router, value) ∷ rest) =
    load_config
      (with_mappings router value.mappings
        (with_catalog router value.catalog (with_prefixes router value.prefixes m)))
      rest

-- The id without the first of the prefixes that it starts with.
unfoldable pub strip_first : List String → String → Option String
strip_first [] id = none
strip_first (p ∷ ps) id =
    let rest = strip_first ps id in elim (drop_prefix p id) [ none ↦ rest | some s ↦ some s ]

unfoldable pub strip_any : List (List String) → String → Option String
unfolding strip_first
strip_any [] id = none
strip_any (ps ∷ pss) id =
    let rest = strip_any pss id in elim (strip_first ps id) [ none ↦ rest | some s ↦ some s ]

unfoldable pub to_canonical : ModelIdMapper → String → String
unfolding strip_any
to_canonical m id =
    if str_eq id ""
    then id
    else if elem id router_level_ids
    then id
    else or_else (strip_any (values m.prefixes) id) id

-- The first id of the catalogue whose canonical id is the one wanted.
unfoldable pub find_canonical : ModelIdMapper → List String → String → Option String
unfolding to_canonical
find_canonical m [] canonical = none
find_canonical m (id ∷ ids) canonical =
    let rest = find_canonical m ids canonical in
    if str_eq (to_canonical m id) canonical then some id else rest

-- The first prefix that makes an id of the catalogue, or the first one if the catalogue is empty.
unfoldable pub find_prefixed : List String → List String → String → Option String
find_prefixed [] ids canonical = none
find_prefixed (p ∷ ps) [] canonical = some (append p canonical)
find_prefixed (p ∷ ps) (id ∷ ids) canonical =
    let rest = find_prefixed ps (id ∷ ids) canonical in
    if elem (append p canonical) (id ∷ ids) then some (append p canonical) else rest

unfoldable pub to_router_specific : ModelIdMapper → String → String → String
unfolding find_canonical find_prefixed router_key
to_router_specific m canonical router =
    let key = router_key router in
    let ids = keys (or_else (get m.catalogs key) []) in
    if str_eq canonical "" || elem canonical router_level_ids
    then canonical
    else elim (get (or_else (get m.explicit key) []) canonical) [
      | some id ↦ id
      | none ↦ if elem canonical ids then canonical else elim (find_canonical m ids canonical) [
        | some id ↦ id
        | none ↦ or_else (find_prefixed (or_else (get m.prefixes key) []) ids canonical) canonical
      ]
    ]
