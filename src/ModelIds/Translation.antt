-- ===== src/ModelIds/Translation.antt =====
-- model_id_mapper.py: a canonical id is translated into an id that the router has.
use provider_health_daemon.Base.{
  String, true, false, none, some, List, [], ◌∷◌, ◌≡◌, ◌≢◌, refl, ap, sym, ◌∙◌, ◌⊎◌, inl, inr,
  if◌then◌else◌, str_eq, ◌||◌, arith, eq_iff, eq_refl, elem, or_else, Bool-cases,
}
use provider_health_daemon.Base.Dict.{get, keys}
use provider_health_daemon.ModelIds.{
  ModelIdMapper, router_key, router_level_ids, to_canonical, find_canonical, to_router_specific,
}

elem_cons : (id x : String) (xs : List String) → elem id xs ≡ true → elem id (x ∷ xs) ≡ true
unfolding elem
elem_cons id x xs h = rw h (ground arith)

elem_first : (x : String) (xs : List String) → elem x (x ∷ xs) ≡ true
unfolding elem
elem_first x xs = rw (eq_refl x) refl

apart_of_images :
    (f : String → String) (id x c : String)
    → f id ≡ c
    → str_eq (f x) c ≡ false
    → str_eq id x ≡ false
apart_of_images f id x c e p = elim (Bool-cases (str_eq id x)) [
  | inl q ↦
      let same = ap (λ y. str_eq (f y) c) ((eq_iff id x).0 q) in
      ground (arith, same, eq_iff (f id) c)
  | inr q ↦ q
]

-- An id of this canonical id is found if there is one.
find_canonical-elem :
    (m : ModelIdMapper) (c id : String) (ids : List String)
    → elem id ids ≡ true
    → to_canonical m id ≡ c
    → (found : String) × (find_canonical m ids c ≡ some found)
      × (elem found ids ≡ true)
      × (to_canonical m found ≡ c)
unfolding find_canonical elem
find_canonical-elem m c id [] h e = ground arith
find_canonical-elem m c id (x ∷ xs) h e = elim (Bool-cases (str_eq (to_canonical m x) c)) [
  | inl p ↦ (x, rw p refl, elem_first x xs, (eq_iff (to_canonical m x) c).0 p)
  | inr p ↦
      let apart = apart_of_images (to_canonical m) id x c e p in
      let (found, f, t, q) =
        find_canonical-elem m c id xs (ap (λ b. if b then true else elem id xs) (sym apart) ∙ h)
          e in
      (found, rw p f, elem_cons found x xs t, q)
]

-- The id into which a canonical id is translated for a router is in the router's catalogue, and is the canonical id or has
-- it as its canonical id, if the catalogue has some id of this canonical id, which is not empty, not a router-level one, and has
-- no mapping of its own.
pub to_router_specific-elem :
    (m : ModelIdMapper) (c id router : String) (ids : List String)
    → ids ≡ keys (or_else (get m.catalogs (router_key router)) [])
    → c ≢ ""
    → elem c router_level_ids ≡ false
    → get (or_else (get m.explicit (router_key router)) []) c ≡ none
    → elem id ids ≡ true
    → to_canonical m id ≡ c
    → (elem (to_router_specific m c router) ids ≡ true)
      × ((to_router_specific m c router ≡ c) ⊎ (to_canonical m (to_router_specific m c router) ≡ c))
unfolding to_router_specific
to_router_specific-elem m c id router ids k n l x h e =
    let guard : (str_eq c "" || elem c router_level_ids) ≡ false =
      rw l (ground (arith, eq_iff c "")) in
    elim (Bool-cases (elem c ids)) [
      | inl p ↦ rw (guard, x, sym k, p) (p, inl refl)
      | inr p ↦
          let (found, f, t, q) = find_canonical-elem m c id ids h e in
          rw (guard, x, sym k, p, f) (t, inr q)
    ]
