-- ===== src/SmartRouter/Pool.antt =====
-- smart_router.py: the caches that all SmartRouters share, and the calls that fill them. The clock
-- does not move within a call. A set of ids is a list without repetitions. What other parts answer, the
-- connections of provider_discovery.py and the disabled models of catalog_sync.py, are arguments.
use mathlib.Core.List.{flat_map}
use provider_health_daemon.Base.{
  ℕ, ◌+◌, String, Bool, true, false, not, ◌&&◌, Option, none, some, List, [], ◌∷◌, ◌++◌, map,
  if◌then◌else◌, ltb, ◌==◌, elem, filter, str_eq, drop_prefix, is_some,
}
use Prim.Native.String.{◌++◌ as append}
use provider_health_daemon.Base.Dict.{Dict}
use provider_health_daemon.Base.Sets.{add_all}
use provider_health_daemon.Clock.{Stamp, at, malformed}
use provider_health_daemon.SmartRouter.Tables.{
  locked_models_ttl, conn_counts_ttl, disabled_cache_ttl,
}
pub mod Static
pub mod Catalog
pub mod Combos

-- A cached answer and the time it was asked for, which is 0 before the first time.
pub record Cached (A : Type 0) : Type 0 where
  pub value : A
  pub time : ℕ

-- What is asked of the rest of the system: `none` stands for an exception. `disabled` has the lists of
-- the registry, without what is not a text in them.
pub record Connection : Type 0 where
  pub model_locks : Dict (Option Stamp)
  pub connection_count : ℕ

pub record Disk : Type 0 where
  pub mtime : ℕ
  pub models : Option (List String)

-- The class attributes, and the disk cache: its contents are nothing if they cannot be read.
pub record Pool : Type 0 where
  pub combo : Cached (List String)
  pub disabled : Cached (List String)
  pub locked : Cached (List String)
  pub counts : Cached (Dict ℕ)
  pub disk : Option Disk

-- `invalidate_combo_cache`
unfoldable pub invalidate_combo_cache : Pool → Pool
invalidate_combo_cache p = record p {
  combo = record { value = []; time = 0 };
  disabled = record { value = []; time = 0 };
  locked = record { value = []; time = 0 };
  counts = record { value = []; time = 0 };
}

abbrev pub lock_until : ℕ → Stamp → Bool
lock_until now (at t) = ltb now t
lock_until now malformed = false

unfoldable pub is_lock_active : ℕ → Option Stamp → Bool
is_lock_active now none = false
is_lock_active now (some until) = lock_until now until

-- A cache that was filled, not longer ago than its time to live.
unfoldable pub is_fresh : ℕ → ℕ → ℕ → Bool
is_fresh now ttl time = not (time == 0) && ltb now (time + ttl)

-- The ids of the models of one provider whose locks are active.
unfoldable pub locked_of : ℕ → String → Dict (Option Stamp) → List String
unfolding is_lock_active
locked_of now prefix locks =
    map (λ e. append prefix (append "/" e.0)) (filter (λ e. is_lock_active now e.1) locks)

unfoldable pub all_locked : ℕ → Dict Connection → List String
unfolding locked_of
all_locked now [] = []
all_locked now ((prefix, c) ∷ cs) = locked_of now prefix c.model_locks ++ all_locked now cs

abbrev or_empty : {A : Type 0} → (Dict Connection → List A) → Option (Dict Connection) → List A
or_empty f none = []
or_empty f (some cs) = f cs

unfoldable pub fetch_locked : ℕ → Option (Dict Connection) → List String
unfolding add_all all_locked
fetch_locked now connections = add_all [] (or_empty (all_locked now) connections)

unfoldable pub get_locked_model_ids : ℕ → Option (Dict Connection) → Pool → Pool × List String
unfolding is_fresh fetch_locked
get_locked_model_ids now connections p =
    if is_fresh now locked_models_ttl p.locked.time then (p, p.locked.value) else (
      record p { locked = record { value = fetch_locked now connections; time = now } },
      fetch_locked now connections,
    )

unfoldable pub fetch_counts : Option (Dict Connection) → Dict ℕ
fetch_counts connections = or_empty (map (λ e. (e.0, e.1.connection_count))) connections

unfoldable pub get_connection_counts : ℕ → Option (Dict Connection) → Pool → Pool × Dict ℕ
unfolding is_fresh fetch_counts
get_connection_counts now connections p =
    if is_fresh now conn_counts_ttl p.counts.time then (p, p.counts.value) else (
      record p { counts = record { value = fetch_counts connections; time = now } },
      fetch_counts connections,
    )

-- An id, and the id with its provider's prefix if it has none. An empty id is passed over.
unfoldable pub both_shapes : String → String → List String
both_shapes provider mid =
    if str_eq mid ""
    then []
    else if is_some (drop_prefix (append provider "/") mid)
    then mid ∷ []
    else mid ∷ append provider (append "/" mid) ∷ []

unfoldable pub resolved_ids : Dict (List String) → List String
unfolding both_shapes
resolved_ids [] = []
resolved_ids ((provider, ids) ∷ rest) = flat_map (both_shapes provider) ids ++ resolved_ids rest

-- A failure keeps the old answer and its time is noted, so that it is not asked again at once.
abbrev store_disabled : ℕ → Pool → Option (Dict (List String)) → Pool × List String
store_disabled now p none =
    (record p { disabled = record p.disabled { time = now } }, p.disabled.value)
store_disabled now p (some raw) = (
  record p { disabled = record { value = add_all [] (resolved_ids raw); time = now } },
  add_all [] (resolved_ids raw),
)

unfoldable pub get_disabled_model_ids : ℕ → Option (Dict (List String)) → Pool → Pool × List String
unfolding is_fresh add_all resolved_ids
get_disabled_model_ids now answer p =
    if is_fresh now disabled_cache_ttl p.disabled.time
    then (p, p.disabled.value)
    else store_disabled now p answer

-- `_filter_disabled_models`
unfoldable pub filter_disabled_models :
    ℕ → Option (Dict (List String)) → Pool → List String → Pool × List String
unfolding get_disabled_model_ids filter
filter_disabled_models now answer p [] = (p, [])
filter_disabled_models now answer p (m ∷ ms) =
    let (p', disabled) = get_disabled_model_ids now answer p in
    (p', filter (λ x. not (elem x disabled)) (m ∷ ms))
