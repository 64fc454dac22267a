-- ===== src/SmartRouter/Pool/Combos/Clean.antt =====
-- smart_router.py: nothing that the filters drop is ever in the pool.
use provider_health_daemon.Base.{
  ℕ, ◌≡◌, refl, sym, ◌∙◌, String, Bool, true, false, not, Option, none, some, List, [], ◌∷◌, arith,
  Bool-cases, inl, inr, elem, All, All-imp, All-filter,
}
use mathlib.Core.Path.{subst}
use provider_health_daemon.Base.Dict.{Dict}
use provider_health_daemon.SmartRouter.Pool.{
  Pool, Cached, Connection, get_locked_model_ids, get_connection_counts, get_disabled_model_ids,
  filter_disabled_models,
}
use provider_health_daemon.SmartRouter.Pool.Static.{
  is_known_good, is_free, is_allowed, is_chat_model, static_verdict, static_loop,
  filter_static_models,
}
use provider_health_daemon.SmartRouter.Pool.Static.Passes.{
  passes, locked_ids, filter_static_models-passes,
}
use provider_health_daemon.SmartRouter.Pool.Catalog.{
  Item, Groups, catalog_verdict, place_item, group_items, filter_catalog_models,
  fetch_catalog_models,
}
use provider_health_daemon.SmartRouter.Pool.Combos.{
  World, read_combo_cache, filter_both, filter_static, filter_disabled, or_static, from_network,
  ask_network, disk_or_network, ask_disk, in_memory, get_default_combos,
}

-- The list in memory is left alone.
abbrev KeepsCombo : Pool → Pool → Type 0
KeepsCombo p p' = p'.combo ≡ p.combo

module _ (now : ℕ) (connections : Option (Dict Connection)) where
  locked_keeps : (p : Pool) → KeepsCombo p (get_locked_model_ids now connections p).0
  unfolding get_locked_model_ids
  locked_keeps p = ground arith

  counts_keeps : (p : Pool) → KeepsCombo p (get_connection_counts now connections p).0
  unfolding get_connection_counts
  counts_keeps p = ground arith

  static_verdict_keeps :
      (p : Pool) (m : String) → KeepsCombo p (static_verdict now connections p m).0
  unfolding static_verdict
  static_verdict_keeps p m = elim (Bool-cases (is_known_good m)) [
    | inl e ↦ rw e (locked_keeps p)
    | inr e ↦ rw e refl
  ]

  static_loop_keeps :
      (p : Pool) (out ms : List String) → KeepsCombo p (static_loop now connections p out ms).0
  unfolding static_loop
  static_loop_keeps p out [] = refl
  static_loop_keeps p out (m ∷ ms) =
      static_loop_keeps (static_verdict now connections p m).0 _ ms ∙ static_verdict_keeps p m

  catalog_verdict_keeps :
      (p : Pool) (m : String) → KeepsCombo p (catalog_verdict now connections p m).0
  unfolding catalog_verdict
  catalog_verdict_keeps p m = elim (Bool-cases (is_known_good m)) [
    | inl e ↦ rw e (locked_keeps p)
    | inr e ↦ rw e refl
  ]

  place_item_keeps :
      (p : Pool) (g : Groups) (c : ℕ) (id : Option String)
      → KeepsCombo p (place_item now connections p g c id).0
  place_item_keeps p g c none = refl
  place_item_keeps p g c (some m) = catalog_verdict_keeps p m

  group_items_keeps :
      (p : Pool) (g : Groups) (items : List Item)
      → KeepsCombo p (group_items now connections p g items).0
  unfolding group_items
  group_items_keeps p g [] = refl
  group_items_keeps p g (it ∷ items) =
      group_items_keeps (place_item now connections p g it.context it.id).0
        (place_item now connections p g it.context it.id).1 items
      ∙ place_item_keeps p g it.context it.id

  fetch_keeps :
      (p : Pool) (items : Option (List Item))
      → KeepsCombo p (fetch_catalog_models now connections items p).0
  unfolding fetch_catalog_models filter_catalog_models
  fetch_keeps p none = refl
  fetch_keeps p (some items) =
      counts_keeps (group_items now connections p [] items).0 ∙ group_items_keeps p [] items

disabled_keeps :
    (now : ℕ) (answer : Option (Dict (List String))) (p : Pool)
    → KeepsCombo p (get_disabled_model_ids now answer p).0
unfolding get_disabled_model_ids
disabled_keeps now none p = ground arith
disabled_keeps now (some raw) p = ground arith

filter_disabled_keeps :
    (now : ℕ) (answer : Option (Dict (List String))) (p : Pool) (ms : List String)
    → KeepsCombo p (filter_disabled_models now answer p ms).0
unfolding filter_disabled_models
filter_disabled_keeps now answer p [] = refl
filter_disabled_keeps now answer p (m ∷ ms) = disabled_keeps now answer p

filter_both_keeps :
    (w : World) (skip : Bool) (p : Pool) (ms : List String)
    → KeepsCombo p (filter_both w skip p ms).0
unfolding filter_both filter_static filter_disabled filter_static_models
filter_both_keeps w true p ms = static_loop_keeps w.now w.connections p [] ms
filter_both_keeps w false p ms =
    filter_disabled_keeps w.now w.disabled (static_loop w.now w.connections p [] ms).0 _
    ∙ static_loop_keeps w.now w.connections p [] ms

-- A model that the static filter lets pass whatever is locked.
pub record IsServable (m : String) : Type 0 where
  pub good : is_known_good m ≡ true
  pub free : is_free m ≡ true
  pub on_list : is_allowed m ≡ true
  pub chat : is_chat_model m ≡ true

passes-IsServable :
    (now : ℕ) (connections : Option (Dict Connection)) (locked : List String) (m : String)
    → passes now connections locked m ≡ true
    → IsServable m
passes-IsServable now connections locked m h = ground arith

filter_disabled-IsServable :
    (now : ℕ) (answer : Option (Dict (List String))) (p : Pool) (ms : List String)
    → All IsServable ms
    → All IsServable (filter_disabled_models now answer p ms).1
unfolding filter_disabled_models
filter_disabled-IsServable now answer p [] a = tt
filter_disabled-IsServable now answer p (m ∷ ms) a =
    All-filter IsServable (λ x. not (elem x (get_disabled_model_ids now answer p).1)) (m ∷ ms) a

filter_static-IsServable :
    (w : World) (p : Pool) (ms : List String) → All IsServable (filter_static w p ms).1
unfolding filter_static
filter_static-IsServable w p ms =
    All-imp (passes-IsServable w.now w.connections (locked_ids w.now w.connections p)) _
      (filter_static_models-passes w.now w.connections p ms).0

filter_both-IsServable :
    (w : World) (skip : Bool) (p : Pool) (ms : List String)
    → All IsServable (filter_both w skip p ms).1
unfolding filter_both filter_disabled
filter_both-IsServable w true p ms = filter_static-IsServable w p ms
filter_both-IsServable w false p ms =
    filter_disabled-IsServable w.now w.disabled (filter_static w p ms).0 (filter_static w p ms).1
      (filter_static-IsServable w p ms)

-- All models of the answer, and of the list in memory after it, are servable.
abbrev IsClean : Pool × List String → Type 0
IsClean r = All IsServable r.0.combo.value × All IsServable r.1

from_network-IsServable :
    (w : World) (skip : Bool) (p : Pool) (ms : List String)
    → All IsServable (from_network w skip p ms).1
from_network-IsServable w skip p [] =
    filter_both-IsServable w skip p (or_static (read_combo_cache w.now p))
from_network-IsServable w skip p (m ∷ ms) = filter_both-IsServable w skip p (m ∷ ms)

from_network_keeps :
    (w : World) (p : Pool) (ms : List String) → KeepsCombo p (from_network w true p ms).0
from_network_keeps w p [] = filter_both_keeps w true p (or_static (read_combo_cache w.now p))
from_network_keeps w p (m ∷ ms) = filter_both_keeps w true p (m ∷ ms)

network-IsClean :
    (w : World) (skip : Bool) (p : Pool)
    → All IsServable p.combo.value
    → IsClean (ask_network w skip p)
unfolding ask_network
network-IsClean w true p a =
    let f = fetch_catalog_models w.now w.connections w.catalog p in
    let e : (from_network w true f.0 f.1).0.combo ≡ p.combo =
      from_network_keeps w f.0 f.1 ∙ fetch_keeps w.now w.connections p w.catalog in
    (
      subst (λ (c : Cached (List String)). All IsServable c.value) (sym e) a,
      from_network-IsServable w true f.0 f.1,
    )
network-IsClean w false p a =
    let f = fetch_catalog_models w.now w.connections w.catalog p in
    let k = from_network-IsServable w false f.0 f.1 in (k, k)

disk_or_network-IsClean :
    (w : World) (p : Pool) (r : Pool × List String) → IsClean r → IsClean (disk_or_network w p r)
disk_or_network-IsClean w p (p', []) c = network-IsClean w false p' c.0
disk_or_network-IsClean w p (p', m ∷ ms) c = (c.1, c.1)

ask_disk-IsClean :
    (w : World) (p : Pool) (ms : List String)
    → All IsServable p.combo.value
    → IsClean (ask_disk w p ms)
unfolding ask_disk
ask_disk-IsClean w p [] a = network-IsClean w false p a
ask_disk-IsClean w p (m ∷ ms) a = disk_or_network-IsClean w p (filter_both w false p (m ∷ ms)) (
  subst (λ (c : Cached (List String)). All IsServable c.value)
      (sym (filter_both_keeps w false p (m ∷ ms))) a,
  filter_both-IsServable w false p (m ∷ ms),
)

-- Whatever the catalog, the disk and the registries answer, and whether or not the disabled models are
-- skipped: if every model of the list in memory is servable, so is every model of the answer and of
-- the list in memory after the call.
pub get_default_combos-IsServable :
    (w : World) (skip : Bool) (p : Pool)
    → All IsServable p.combo.value
    → All IsServable (get_default_combos w skip p).0.combo.value
      × All IsServable (get_default_combos w skip p).1
unfolding get_default_combos
get_default_combos-IsServable w true p a = network-IsClean w true p a
get_default_combos-IsServable w false p a = elim (Bool-cases (in_memory w.now p)) [
  | inl e ↦ rw e (a, a)
  | inr e ↦ rw e (ask_disk-IsClean w p (read_combo_cache w.now p) a)
]
