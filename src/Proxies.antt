-- ===== src/Proxies.antt =====
-- proxy_manager.py: `ProxyManager` and the assignment of proxies to the accounts of the 9router. The
-- lines that the sources answer are an argument, and so is which proxies are alive; the rows of the
-- database are a dictionary, and its backup is left out.
use provider_health_daemon.Base.{
  ℕ, zero, suc, ◌+◌, ◌-◌, ◌%◌, String, Bool, true, false, not, ◌&&◌, Option, none, some, List, [],
  ◌∷◌, ◌++◌, map, if◌then◌else◌, ltb, leb, ◌==◌, elem, filter, length, or_else, strip, str_eq,
  contains,
}
use Prim.Native.String.{◌++◌ as append}
use provider_health_daemon.Base.Dict.{Dict, get, put}
use provider_health_daemon.Base.Sets.{add}
use provider_health_daemon.Clock.{seconds}
pub mod Groups
pub mod Unused

abbrev pub proxy_min_pool : ℕ
proxy_min_pool = 10

abbrev pub proxy_refresh_interval : ℕ
proxy_refresh_interval = seconds 21_600

-- An account of the 9router; `proxy_url` is the text of its proxy, stripped, empty if it has none.
pub record ProxyAccount : Type 0 where
  pub id : String
  pub provider : String
  pub proxy_url : String

abbrev with_scheme : String → String
with_scheme line = if contains line "://" then line else append "http://" line

-- The lines of one source.
unfoldable pub add_lines : List String → List String → List String
unfolding add
add_lines found [] = found
add_lines found (line ∷ lines) =
    let s = strip line in
    add_lines (if contains s ":" then add found (with_scheme s) else found) lines

-- `fetch_raw_proxies`: a source that fails is `none`.
unfoldable pub fetch_raw_proxies : List String → List (Option (List String)) → List String
unfolding add_lines
fetch_raw_proxies found [] = found
fetch_raw_proxies found (none ∷ sources) = fetch_raw_proxies found sources
fetch_raw_proxies found (some lines ∷ sources) = fetch_raw_proxies (add_lines found lines) sources

unfoldable pub probe_proxies : (String → Bool) → List String → List String
unfolding filter
probe_proxies is_alive = filter is_alive

unfoldable pub group_by_provider :
    Dict (List ProxyAccount) → List ProxyAccount → Dict (List ProxyAccount)
group_by_provider g [] = g
group_by_provider g (c ∷ cs) =
    group_by_provider (put g c.provider (or_else (get g c.provider) [] ++ c ∷ [])) cs

-- `pool[i]`, empty out of range, where the code never reads
unfoldable pub proxy_at : List String → ℕ → String
proxy_at [] i = ""
proxy_at (p ∷ pool) zero = p
proxy_at (p ∷ pool) (suc i) = proxy_at pool i

-- The proxies of one provider's accounts, from the i-th on, one after the other from the start.
unfoldable pub assign_group : List String → ℕ → ℕ → List ProxyAccount → List (String × String)
unfolding proxy_at
assign_group pool start i [] = []
assign_group pool start i (c ∷ cs) =
    (c.id, proxy_at pool ((start + i) % length pool)) ∷ assign_group pool start (suc i) cs

unfoldable pub assign_groups : List String → ℕ → Dict (List ProxyAccount) → List (String × String)
unfolding assign_group
assign_groups pool pool_idx [] = []
assign_groups pool pool_idx ((provider, cs) ∷ g) =
    assign_group pool (pool_idx % length pool) 0 cs ++ assign_groups pool (pool_idx + length cs) g

unfoldable pub put_all : Dict String → List (String × String) → Dict String
put_all d [] = d
put_all d ((k, v) ∷ kvs) = put_all (put d k v) kvs

unfoldable pub compute_assignments : List ProxyAccount → List String → Dict String
unfolding group_by_provider assign_groups put_all
compute_assignments connections [] = []
compute_assignments connections (p ∷ pool) =
    put_all [] (assign_groups (p ∷ pool) 0 (group_by_provider [] connections))

unfoldable pub has_proxy : ProxyAccount → Bool
has_proxy c = not (str_eq c.proxy_url "")

unfoldable pub used_proxies_by_provider :
    Dict (List String) → List ProxyAccount → Dict (List String)
unfolding add has_proxy
used_proxies_by_provider used [] = used
used_proxies_by_provider used (c ∷ cs) =
    used_proxies_by_provider
      (if has_proxy c
        then put used c.provider (add (or_else (get used c.provider) []) c.proxy_url)
        else used)
      cs

-- The candidates from the i-th of n on, and then the one at the offset.
unfoldable pub scan_pool : List String → List String → ℕ → ℕ → ℕ → String
unfolding proxy_at
scan_pool pool used offset i zero = proxy_at pool (offset % length pool)
scan_pool pool used offset i (suc n) =
    let candidate = proxy_at pool ((offset + i) % length pool) in
    let rest = scan_pool pool used offset (suc i) n in
    if elem candidate used then rest else candidate

unfoldable pub pick_unused_proxy : List String → List String → ℕ → String
unfolding scan_pool
pick_unused_proxy pool used offset = scan_pool pool used offset 0 (length pool)

-- What the loop has: the assignments, the proxies in use, and the offset.
pub record Round : Type 0 where
  pub assignments : Dict String
  pub used : List String
  pub offset : ℕ

-- One account of a provider.
unfoldable pub assign_unproxied : List String → Round → ProxyAccount → Round
unfolding pick_unused_proxy add has_proxy
assign_unproxied pool s c =
    let proxy = pick_unused_proxy pool s.used s.offset in
    if has_proxy c then s else record {
      assignments = put s.assignments c.id proxy;
      used = add s.used proxy;
      offset = suc s.offset;
    }

unfoldable pub assign_unproxied_all : List String → Round → List ProxyAccount → Round
unfolding assign_unproxied
assign_unproxied_all pool s [] = s
assign_unproxied_all pool s (c ∷ cs) = assign_unproxied_all pool (assign_unproxied pool s c) cs

unfoldable pub unproxied_groups :
    List String → Dict (List String) → Dict String → ℕ → Dict (List ProxyAccount) → Dict String
unfolding assign_unproxied_all
unproxied_groups pool used assignments offset [] = assignments
unproxied_groups pool used assignments offset ((provider, cs) ∷ g) =
    let s =
      assign_unproxied_all pool
        (record {
          assignments = assignments;
          used = or_else (get used provider) [];
          offset = offset;
        })
        cs in
    unproxied_groups pool used s.assignments s.offset g

unfoldable pub assignments_for_unproxied : List ProxyAccount → List String → Dict String
unfolding unproxied_groups used_proxies_by_provider group_by_provider
assignments_for_unproxied connections [] = []
assignments_for_unproxied connections (p ∷ pool) =
    unproxied_groups (p ∷ pool) (used_proxies_by_provider [] connections) [] 0
      (group_by_provider [] connections)

-- A row of the database: `none` for one whose data is not JSON.
pub record StoredProxy : Type 0 where
  pub url : String
  pub enabled : Bool

abbrev pub Rows : Type 0
Rows = Dict (Option StoredProxy)

abbrev write_row : Rows → String → String → Option (Option StoredProxy) → Rows × ℕ
write_row rows id proxy none = (rows, 0)
write_row rows id proxy (some none) = (rows, 0)
write_row rows id proxy (some (some row)) =
    if str_eq row.url proxy && row.enabled
    then (rows, 0)
    else (put rows id (some (record { url = proxy; enabled = true })), 1)

-- `apply_assignments`: the rows, and how many were changed.
unfoldable pub apply_assignments : Rows → Dict String → Rows × ℕ
apply_assignments rows [] = (rows, 0)
apply_assignments rows ((id, proxy) ∷ rest) =
    let (rows', n) = write_row rows id proxy (get rows id) in
    let (last, m) = apply_assignments rows' rest in (last, n + m)

pub record ProxyManager : Type 0 where
  pub pool : List String
  pub pool_fetched_at : ℕ

unfoldable pub pool_needs_refresh : ℕ → ProxyManager → Bool
pool_needs_refresh now m =
    if length m.pool == 0 then true else leb (m.pool_fetched_at + proxy_refresh_interval) now

-- `_load_pool`: too few proxies leave the old pool, and its time, as they were.
unfoldable pub load_pool :
    ℕ → (String → Bool) → List (Option (List String)) → ProxyManager → ProxyManager
unfolding fetch_raw_proxies probe_proxies
load_pool now is_alive sources m =
    let alive = probe_proxies is_alive (fetch_raw_proxies [] sources) in
    if ltb (length alive) proxy_min_pool then m else record { pool = alive; pool_fetched_at = now }

pub record ProxySummary : Type 0 where
  pub connections : ℕ
  pub unproxied : ℕ
  pub applied : ℕ
  pub pool : ℕ
  pub refreshed : Bool
  pub dry_run : Bool

-- What comes after the pool is there.
abbrev apply_pool :
    Bool → Bool → List ProxyAccount → ProxyManager → Rows → ProxyManager × Rows × ProxySummary
apply_pool dry_run refreshed connections m rows =
    let unproxied = length (filter (λ c. not (has_proxy c)) connections) in
    let assignments =
      if refreshed
      then compute_assignments connections m.pool
      else assignments_for_unproxied connections m.pool in
    let (rows', applied) =
      if length m.pool == 0
      then (rows, 0)
      else if dry_run
      then (rows, length assignments)
      else apply_assignments rows assignments in
    (
      m,
      rows',
      record {
        connections = length connections;
        unproxied = unproxied;
        applied = applied;
        pool = length m.pool;
        refreshed = refreshed;
        dry_run = dry_run;
      },
    )

unfoldable pub ensure_all_proxied :
    ℕ
    → Bool
    → (String → Bool)
    → List (Option (List String))
    → List ProxyAccount
    → ProxyManager
    → Rows
    → ProxyManager × Rows × ProxySummary
unfolding pool_needs_refresh load_pool compute_assignments assignments_for_unproxied
    apply_assignments has_proxy filter
ensure_all_proxied now dry_run is_alive sources [] m rows = (
  m,
  rows,
  record {
    connections = 0;
    unproxied = 0;
    applied = 0;
    pool = length m.pool;
    refreshed = false;
    dry_run = dry_run;
  },
)
ensure_all_proxied now dry_run is_alive sources (c ∷ cs) m rows =
    if pool_needs_refresh now m
    then apply_pool dry_run true (c ∷ cs) (load_pool now is_alive sources m) rows
    else apply_pool dry_run false (c ∷ cs) m rows
