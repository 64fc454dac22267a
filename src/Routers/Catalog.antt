-- ===== src/Routers/Catalog.antt =====
-- router_registry.py: `get_model_catalog`, and which routers it says serve a model.
use provider_health_daemon.Base.{
  String, Bool, true, false, Option, none, some, List, [], ◌∷◌, ◌++◌, ◌≡◌, refl, if◌then◌else◌,
  arith, Bool-cases, Option-cases, inl, inr, ap, sym, ◌∙◌, str_eq, eq_iff, elem, ◌&&◌, ◌||◌,
}
use provider_health_daemon.Base.Dict.{Dict, get, put, get-put, values}
use provider_health_daemon.Routers.{RouterState, Routers}

pub record CatalogEntry : Type 0 where
  pub model_id : String
  pub router_origins : List String

unfoldable pub add_name : List String → String → List String
add_name names name = if elem name names then names else names ++ name ∷ []

-- One turn of the inner loop.
unfoldable pub add_origin : String → Dict CatalogEntry → String → Dict CatalogEntry
unfolding add_name
add_origin name catalog model_id = elim (get catalog model_id) [
  | none ↦ put catalog model_id (record { model_id = model_id; router_origins = name ∷ [] })
  | some e ↦ put catalog model_id (record e { router_origins = add_name e.router_origins name })
]

unfoldable pub add_models : String → Dict CatalogEntry → List String → Dict CatalogEntry
add_models name catalog [] = catalog
add_models name catalog (m ∷ ms) = add_models name (add_origin name catalog m) ms

unfoldable pub add_routers : Dict CatalogEntry → List RouterState → Dict CatalogEntry
add_routers catalog [] = catalog
add_routers catalog (r ∷ rs) = add_routers (add_models r.name catalog r.models) rs

unfoldable pub get_model_catalog : Routers → Dict CatalogEntry
get_model_catalog rs = add_routers [] (values rs)

-- The names in the entry of a model, none if there is no entry.
unfoldable pub names_of : Option CatalogEntry → List String
names_of none = []
names_of (some e) = e.router_origins

unfoldable pub origins : Dict CatalogEntry → String → List String
unfolding names_of
origins catalog m = names_of (get catalog m)

elem-append_one :
    (n name : String) (names : List String)
    → elem n (names ++ name ∷ []) ≡ (elem n names || str_eq n name)
unfolding elem
elem-append_one n name [] = ground arith
elem-append_one n name (m ∷ ms) = ground (arith, elem-append_one n name ms)

absorbed :
    (n name : String) (names : List String)
    → elem name names ≡ true
    → elem n names ≡ (elem n names || str_eq n name)
absorbed n name names h = elim (Bool-cases (str_eq n name)) [
  | inl e ↦ let there = ap (λ x. elem x names) ((eq_iff n name).0 e) ∙ h in rw (e, there) refl
  | inr e ↦ rw e (ground arith)
]

elem-add_name :
    (n name : String) (names : List String)
    → elem n (add_name names name) ≡ (elem n names || str_eq n name)
unfolding add_name
elem-add_name n name names = elim (Bool-cases (elem name names)) [
  | inl e ↦ rw e (absorbed n name names e)
  | inr e ↦ rw e (elem-append_one n name names)
]

names_of_if :
    (b : Bool) (e : CatalogEntry) (o : Option CatalogEntry)
    → names_of (if b then some e else o) ≡ (if b then e.router_origins else names_of o)
unfolding names_of
names_of_if true e o = refl
names_of_if false e o = refl

-- What one turn does to the names of any model.
origins-add_origin :
    (name : String) (catalog : Dict CatalogEntry) (m q : String)
    → origins (add_origin name catalog m) q
      ≡ (if str_eq m q then add_name (origins catalog m) name else origins catalog q)
unfolding add_origin origins elem
origins-add_origin name catalog m q = elim (Option-cases (get catalog m)) [
  | inl e ↦ rw (add_origin, e, get-put, names_of_if) refl
  | inr (c, e) ↦ rw (add_origin, e, get-put, names_of_if) refl
]

elem-add_origin :
    (name : String) (catalog : Dict CatalogEntry) (m n q : String)
    → elem n (origins (add_origin name catalog m) q)
      ≡ (elem n (origins catalog q) || (str_eq n name && str_eq m q))
elem-add_origin name catalog m n q =
    ap (elem n) (origins-add_origin name catalog m q) ∙ elim (Bool-cases (str_eq m q)) [
      | inl e ↦
          rw (e, sym ((eq_iff m q).0 e)) (elem-add_name n name (origins catalog m) ∙ ground arith)
      | inr e ↦ rw e (ground arith)
    ]

elem-add_models :
    (name : String) (ms : List String) (catalog : Dict CatalogEntry) (n q : String)
    → elem n (origins (add_models name catalog ms) q)
      ≡ (elem n (origins catalog q) || (str_eq n name && elem q ms))
unfolding add_models elem
elem-add_models name [] catalog n q = ground arith
elem-add_models name (m ∷ ms) catalog n q =
    elem-add_models name ms (add_origin name catalog m) n q
    ∙ ap (λ b. b || (str_eq n name && elem q ms)) (elem-add_origin name catalog m n q)
    ∙ ground (arith, eq_iff m q, eq_iff q m)

-- A router of the name n is in the registry with the model m in its catalogue.
unfoldable pub serves : List RouterState → String → String → Bool
serves [] n m = false
serves (r ∷ rs) n m = (str_eq n r.name && elem m r.models) || serves rs n m

elem-add_routers :
    (rs : List RouterState) (catalog : Dict CatalogEntry) (n m : String)
    → elem n (origins (add_routers catalog rs) m) ≡ (elem n (origins catalog m) || serves rs n m)
unfolding add_routers serves
elem-add_routers [] catalog n m = ground arith
elem-add_routers (r ∷ rs) catalog n m =
    elem-add_routers rs (add_models r.name catalog r.models) n m
    ∙ ap (λ b. b || serves rs n m) (elem-add_models r.name r.models catalog n m)
    ∙ ground arith

-- A name is among the origins that the catalogue gives for a model exactly if a registered router of
-- that name has the model in its own catalogue.
pub get_model_catalog-serves :
    (rs : Routers) (n m : String)
    → elem n (origins (get_model_catalog rs) m) ≡ serves (values rs) n m
unfolding get_model_catalog origins elem get
get_model_catalog-serves rs n m = elem-add_routers (values rs) [] n m
