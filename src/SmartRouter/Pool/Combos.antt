-- ===== src/SmartRouter/Pool/Combos.antt =====
-- smart_router.py: `get_default_combos`, the disk cache, and the order in which the sources of the
-- pool are asked.
use provider_health_daemon.Base.{
  ℕ, ◌+◌, String, Bool, true, false, not, ◌&&◌, Option, none, some, List, [], ◌∷◌, if◌then◌else◌,
  ltb,
}
use provider_health_daemon.Base.Dict.{Dict}
use provider_health_daemon.Clock.{seconds}
use provider_health_daemon.SmartRouter.Tables.{combo_cache_ttl, static_combos}
use provider_health_daemon.SmartRouter.Pool.{Pool, Cached, Connection, Disk, filter_disabled_models}
use provider_health_daemon.SmartRouter.Pool.Static.{filter_static_models}
use provider_health_daemon.SmartRouter.Pool.Catalog.{Item, fetch_catalog_models}
pub mod Sources
pub mod Clean

abbrev pub combo_refresh_interval : ℕ
combo_refresh_interval = seconds 300

-- What the rest of the system answers in one call, and whether the disk can be written.
pub record World : Type 0 where
  pub now : ℕ
  pub connections : Option (Dict Connection)
  pub disabled : Option (Dict (List String))
  pub catalog : Option (List Item)
  pub writable : Bool

abbrev read_disk : ℕ → Option Disk → List String
read_disk now none = []
read_disk now (some d) =
    if ltb (d.mtime + combo_cache_ttl) now then [] else elim d.models [ none ↦ [] | some ms ↦ ms ]

-- `_read_combo_cache`: nothing if it is more than a day old.
unfoldable pub read_combo_cache : ℕ → Pool → List String
read_combo_cache now p = read_disk now p.disk

unfoldable pub write_combo_cache : World → Pool → List String → Pool
write_combo_cache w p models =
    if w.writable
    then record p { disk = some (record { mtime = w.now; models = some models }) }
    else p

abbrev pub is_nil : List String → Bool
is_nil [] = true
is_nil (m ∷ ms) = false

abbrev pub remember : World → Pool → List String → Pool
remember w p models = record p { combo = record { value = models; time = w.now } }

unfoldable pub filter_static : World → Pool → List String → Pool × List String
unfolding filter_static_models
filter_static w p ms = filter_static_models w.now w.connections p ms

unfoldable pub filter_disabled : World → Pool → List String → Pool × List String
unfolding filter_disabled_models
filter_disabled w p ms = filter_disabled_models w.now w.disabled p ms

-- `skip_disabled` leaves the models that are disabled in.
unfoldable pub filter_both : World → Bool → Pool → List String → Pool × List String
unfolding filter_static filter_disabled
filter_both w skip p ms =
    let (p', kept) = filter_static w p ms in if skip then (p', kept) else filter_disabled w p' kept

abbrev or_static : List String → List String
or_static [] = static_combos
or_static (m ∷ ms) = m ∷ ms

-- The catalog, or else the disk, or else the static list.
abbrev from_network : World → Bool → Pool → List String → Pool × List String
from_network w skip p [] = filter_both w skip p (or_static (read_combo_cache w.now p))
from_network w skip p (m ∷ ms) =
    let (p', models) = filter_both w skip p (m ∷ ms) in
    (if skip then p' else write_combo_cache w p' models, models)

unfoldable pub ask_network : World → Bool → Pool → Pool × List String
unfolding filter_both read_combo_cache write_combo_cache
ask_network w skip p =
    let (p', fetched) = fetch_catalog_models w.now w.connections w.catalog p in
    let (p'', models) = from_network w skip p' fetched in
    (if skip then p'' else remember w p'' models, models)

abbrev pub disk_or_network : World → Pool → Pool × List String → Pool × List String
disk_or_network w p (p', []) = ask_network w false p'
disk_or_network w p (p', m ∷ ms) = (remember w p' (m ∷ ms), m ∷ ms)

-- A fresh disk cache, if the filters leave something of it.
unfoldable pub ask_disk : World → Pool → List String → Pool × List String
unfolding ask_network
ask_disk w p [] = ask_network w false p
ask_disk w p (m ∷ ms) = disk_or_network w p (filter_both w false p (m ∷ ms))

-- The list in memory is used for five minutes, if it is not empty.
unfoldable pub in_memory : ℕ → Pool → Bool
in_memory now p = not (is_nil p.combo.value) && ltb now (p.combo.time + combo_refresh_interval)

unfoldable pub get_default_combos : World → Bool → Pool → Pool × List String
unfolding in_memory ask_disk read_combo_cache ask_network
get_default_combos w true p = ask_network w true p
get_default_combos w false p =
    if in_memory w.now p then (p, p.combo.value) else ask_disk w p (read_combo_cache w.now p)
