-- ===== src/SmartRouter/Pool/Combos/Sources.antt =====
-- smart_router.py: which source `get_default_combos` takes the pool from.
use provider_health_daemon.Base.{
  ℕ, ◌+◌, ◌≡◌, ◌<◌, refl, ap, ◌∙◌, String, true, false, Option, List, [], ◌∷◌, lt→ltb,
}
use provider_health_daemon.SmartRouter.Pool.Static.{filter_static_models, static_loop}
use provider_health_daemon.SmartRouter.Pool.{
  Pool, Cached, filter_disabled_models, invalidate_combo_cache,
}
use provider_health_daemon.SmartRouter.Pool.Catalog.{Item}
use provider_health_daemon.SmartRouter.Pool.Combos.{
  World, combo_refresh_interval, read_combo_cache, is_nil, filter_both, filter_static,
  filter_disabled, ask_network, disk_or_network, ask_disk, in_memory, get_default_combos,
}

Remembers : World → Pool × List String → Type 0
Remembers w r = r.0.combo ≡ record { value = r.1; time = w.now }

network-Remembers : (w : World) (p : Pool) → Remembers w (ask_network w false p)
unfolding ask_network Remembers
network-Remembers w p = refl

disk_or_network-Remembers :
    (w : World) (p : Pool) (r : Pool × List String) → Remembers w (disk_or_network w p r)
unfolding Remembers
disk_or_network-Remembers w p (p', []) = unfold Remembers in network-Remembers w p'
disk_or_network-Remembers w p (p', m ∷ ms) = refl

ask_disk-Remembers : (w : World) (p : Pool) (ms : List String) → Remembers w (ask_disk w p ms)
unfolding ask_disk
ask_disk-Remembers w p [] = network-Remembers w p
ask_disk-Remembers w p (m ∷ ms) = disk_or_network-Remembers w p (filter_both w false p (m ∷ ms))

default-Remembers :
    (w : World) (p : Pool) → in_memory w.now p ≡ false → Remembers w (get_default_combos w false p)
unfolding get_default_combos
default-Remembers w p m = rw m (ask_disk-Remembers w p (read_combo_cache w.now p))

in_memory-remembered :
    (now t : ℕ) (p : Pool) (models : List String)
    → p.combo ≡ record { value = models; time = t }
    → is_nil models ≡ false
    → now < t + combo_refresh_interval
    → in_memory now p ≡ true
unfolding in_memory
in_memory-remembered now t p models e n h = rw (e, n) (lt→ltb now (t + combo_refresh_interval) h)

from_memory :
    (w : World) (p : Pool)
    → in_memory w.now p ≡ true
    → get_default_combos w false p ≡ (p, p.combo.value)
unfolding get_default_combos
from_memory w p k = rw k refl

-- A list that was not in memory and is not empty is used again, whatever the catalog, the disk and the
-- disabled registry say then, by every call in the next five minutes; and such a call changes nothing.
pub get_default_combos-kept :
    (w later : World) (p : Pool)
    → in_memory w.now p ≡ false
    → is_nil (get_default_combos w false p).1 ≡ false
    → later.now < w.now + combo_refresh_interval
    → get_default_combos later false (get_default_combos w false p).0 ≡ get_default_combos w false p
get_default_combos-kept w later p m n h =
    let r = get_default_combos w false p in
    let e : r.0.combo ≡ record { value = r.1; time = w.now } =
      unfold Remembers in default-Remembers w p m in
    from_memory later r.0 (in_memory-remembered later.now w.now r.0 r.1 e n h)
    ∙ ap (λ (c : Cached (List String)). (r.0, c.value)) e

disk_or_network-catalog :
    (w : World) (catalog : Option (List Item)) (p : Pool) (r : Pool × List String) (m : String)
    (ms : List String)
    → r.1 ≡ m ∷ ms
    → disk_or_network (record w { catalog = catalog }) p r ≡ disk_or_network w p r
disk_or_network-catalog w catalog p (p', []) m ms h = cc
disk_or_network-catalog w catalog p (p', x ∷ xs) m ms h = refl

ask_disk-catalog :
    (w : World) (catalog : Option (List Item)) (p : Pool) (disk : List String) (m : String)
    (ms : List String)
    → (filter_both w false p disk).1 ≡ m ∷ ms
    → ask_disk (record w { catalog = catalog }) p disk ≡ ask_disk w p disk
unfolding ask_disk filter_both filter_static filter_disabled filter_static_models static_loop
    filter_disabled_models
ask_disk-catalog w catalog p [] m ms h = cc
ask_disk-catalog w catalog p (x ∷ xs) m ms h =
    disk_or_network-catalog w catalog p (filter_both w false p (x ∷ xs)) m ms h

-- After `invalidate_combo_cache`, where the filters leave something of a disk cache that is not more
-- than a day old, the catalog is not asked: the same list and pool come of every catalog.
pub invalidate-disk :
    (w : World) (catalog : Option (List Item)) (p : Pool) (m : String) (ms : List String)
    → (filter_both w false (invalidate_combo_cache p) (read_combo_cache w.now p)).1 ≡ m ∷ ms
    → get_default_combos (record w { catalog = catalog }) false (invalidate_combo_cache p)
      ≡ get_default_combos w false (invalidate_combo_cache p)
unfolding get_default_combos in_memory invalidate_combo_cache read_combo_cache
invalidate-disk w catalog p m ms h =
    ask_disk-catalog w catalog (invalidate_combo_cache p) (read_combo_cache w.now p) m ms h
