-- ===== src/Routers/State.antt =====
-- router_registry.py: `save_state` and `load_state`, and what survives a restart.
use mathlib.Core.Option
use provider_health_daemon.Base.{
  ℕ, String, Option, none, some, List, [], ◌∷◌, ◌≡◌, refl, map, if◌then◌else◌, arith, or_else,
  Bool-cases, inl, inr, ap, sym, ◌∙◌, str_eq, eq_iff,
}
use provider_health_daemon.Base.Dict.{Dict, get, put, get-put, get-empty, values}
use provider_health_daemon.Routers.{
  HealthStatus, unknown, RouterState, RouterConfig, Routers, is_lightweight, new_router,
  register_all, new_registry,
}

-- An entry of the file; `none` stands for a missing key, and of the times for `null` too. A status that
-- the program never writes is not a value here.
pub record Saved : Type 0 where
  pub name : String
  pub url : String
  pub priority : ℕ
  pub weight : ℕ
  pub health_status : Option HealthStatus
  pub models : Option (List String)
  pub last_success : Option ℕ
  pub last_failure : Option ℕ
  pub cooldown_until : Option ℕ
  pub consecutive_probes_ok : Option ℕ
  pub failure_count : Option ℕ
  pub health_check_path : String
  pub timeout : ℕ

-- `undecodable` is a file that cannot be read or parsed.
pub data StateFile : Type 0 where
  missing undecodable : StateFile
  entries : List Saved → StateFile

unfoldable pub saved_of : RouterState → Saved
saved_of r = record {
  name = r.name;
  url = r.url;
  priority = r.priority;
  weight = r.weight;
  health_status = some r.health_status;
  models = some r.models;
  last_success = r.last_success;
  last_failure = r.last_failure;
  cooldown_until = r.cooldown_until;
  consecutive_probes_ok = some r.consecutive_probes_ok;
  failure_count = some r.failure_count;
  health_check_path = r.health_check_path;
  timeout = r.timeout;
}

unfoldable pub save_state : Routers → StateFile
unfolding saved_of
save_state rs = entries (map saved_of (values rs))

-- `{entry["name"]: entry for entry in data}`
unfoldable pub by_name : Dict Saved → List Saved → Dict Saved
by_name d [] = d
by_name d (e ∷ es) = by_name (put d e.name e) es

unfoldable pub restore : Saved → RouterState → RouterState
restore saved r =
    let common = record r {
      failure_count = or_else saved.failure_count 0;
      last_success = saved.last_success;
      last_failure = saved.last_failure;
      models = or_else saved.models [];
    } in
    if is_lightweight r
    then record common { health_status = unknown; cooldown_until = none; consecutive_probes_ok = 0 }
    else record common {
      health_status = or_else saved.health_status unknown;
      cooldown_until = saved.cooldown_until;
      consecutive_probes_ok = or_else saved.consecutive_probes_ok 0;
    }

unfoldable pub restore_if : Option Saved → RouterState → RouterState
restore_if none r = r
restore_if (some saved) r = restore saved r

-- The loop over the registered routers.
unfoldable pub restore_all : Dict Saved → Routers → Routers
unfolding restore_if
restore_all d [] = []
restore_all d ((k, r) ∷ rs) = (k, restore_if (get d r.name) r) ∷ restore_all d rs

unfoldable pub load_state : StateFile → Routers → Routers
load_state missing rs = rs
load_state undecodable rs = rs
load_state (entries es) rs = restore_all (by_name [] es) rs

-- Every router stands under its own name, and under no other.
abbrev pub WellNamed : Routers → Type 0
WellNamed [] = Unit
WellNamed ((k, r) ∷ rs) = (r.name ≡ k) × (get rs k ≡ none) × WellNamed rs

unfoldable pub or_saved : Option RouterState → Option Saved → Option Saved
or_saved none o = o
or_saved (some r) o = some (saved_of r)

-- A name that is looked up is the first router's, which no other has, or another router's.
overlay :
    (k q : String) (r : RouterState) (o : Option RouterState) (c : Option Saved)
    → (k ≡ q → o ≡ none)
    → or_saved o (if str_eq k q then some (saved_of r) else c)
      ≡ or_saved (if str_eq k q then some r else o) c
unfolding or_saved
overlay k q r o c u = elim (Bool-cases (str_eq k q)) [
  | inl e ↦ rw (e, u ((eq_iff k q).0 e)) refl
  | inr e ↦ rw e refl
]

get-by_name :
    (rs : Routers) (d : Dict Saved) (q : String)
    → WellNamed rs
    → get (by_name d (map saved_of (values rs))) q ≡ or_saved (get rs q) (get d q)
unfolding by_name get or_saved saved_of
get-by_name [] d q h = refl
get-by_name ((k, r) ∷ rs) d q (n, u, h) =
    get-by_name rs (put d r.name (saved_of r)) q h
    ∙ ap (or_saved (get rs q)) (get-put d r.name q (saved_of r))
    ∙ ap (λ name. or_saved (get rs q) (if str_eq name q then some (saved_of r) else get d q)) n
    ∙ overlay k q r (get rs q) (get d q) (λ e. ap (get rs) (sym e) ∙ u)

get-restore_all :
    (d : Dict Saved) (rs : Routers) (q : String)
    → WellNamed rs
    → get (restore_all d rs) q ≡ Option.map (restore_if (get d q)) (get rs q)
unfolding restore_all get restore_if
get-restore_all d [] q h = refl
get-restore_all d ((k, r) ∷ rs) q (n, u, h) = elim (Bool-cases (str_eq k q)) [
  | inl e ↦ rw e (ap (λ name. some (restore_if (get d name) r)) (n ∙ (eq_iff k q).0 e))
  | inr e ↦ rw e (get-restore_all d rs q h)
]

put-WellNamed :
    (rs : Routers) (k : String) (r : RouterState)
    → r.name ≡ k
    → WellNamed rs
    → WellNamed (put rs k r)
unfolding put get
put-WellNamed [] k r n h = (n, refl, tt)
put-WellNamed ((j, s) ∷ rs) k r n (m, u, h) = elim (Bool-cases (str_eq j k)) [
  | inl e ↦ rw e (n ∙ sym ((eq_iff j k).0 e), u, h)
  | inr e ↦
      rw e (
        m,
        rw (get-put rs k j r) (ground (arith, eq_iff k j, eq_iff j k)),
        put-WellNamed rs k r n h,
      )
]

register_all-WellNamed :
    (cfgs : List RouterConfig) (rs : Routers) → WellNamed rs → WellNamed (register_all rs cfgs)
unfolding register_all new_router
register_all-WellNamed [] rs h = h
register_all-WellNamed (cfg ∷ cfgs) rs h =
    register_all-WellNamed cfgs _ (put-WellNamed rs cfg.name (new_router cfg) refl h)

pub new_registry-WellNamed : (cfgs : List RouterConfig) → WellNamed (new_registry cfgs)
unfolding new_registry
new_registry-WellNamed cfgs = register_all-WellNamed cfgs [] tt

-- What a router of the new process looks like after the state that an old one left.
abbrev pub survivor : RouterState → RouterState → RouterState
survivor old r =
    let common = record r {
      failure_count = old.failure_count;
      last_success = old.last_success;
      last_failure = old.last_failure;
      models = old.models;
    } in
    if is_lightweight r
    then record common { health_status = unknown; cooldown_until = none; consecutive_probes_ok = 0 }
    else record common {
      health_status = old.health_status;
      cooldown_until = old.cooldown_until;
      consecutive_probes_ok = old.consecutive_probes_ok;
    }

survives :
    (o m : Option RouterState)
    → Option.map (restore_if (or_saved o none)) m
      ≡ Option.map (λ r. elim o [ none ↦ r | some old ↦ survivor old r ]) m
unfolding or_saved restore_if restore saved_of
survives none none = refl
survives none (some r) = refl
survives (some old) none = refl
survives (some old) (some r) = refl

-- Of two registries in which every router stands under its own name, the second loads what the first
-- saved: a router keeps its configuration and takes the models, the times and the failures of the
-- saved router of its name, and its status, cooldown and probes unless its path is a lightweight
-- one, for which they are reset; a router that the first registry does not have stays as it was.
pub load_state-save_state :
    (old new : Routers) (q : String)
    → WellNamed old
    → WellNamed new
    → get (load_state (save_state old) new) q
      ≡ Option.map (λ r. elim (get old q) [ none ↦ r | some o ↦ survivor o r ]) (get new q)
unfolding load_state save_state
load_state-save_state old new q h k =
    get-restore_all _ new q k
    ∙ ap (λ o. Option.map (restore_if o) (get new q)) (get-by_name old [] q h)
    ∙ rw (get-empty {V = Saved} q) (survives (get old q) (get new q))
