-- ===== src/Registry/Loading/Repairs.antt =====
-- health_registry.py: what holds of a registry after `_load`.
use provider_health_daemon.Base.{
  ℕ, String, Bool, true, false, Option, none, some, [], ◌∷◌, ◌≡◌, refl, ap, ◌∙◌, if◌then◌else◌,
  str_eq, ltb, before, max, arith, Bool-cases, inl, inr, eq_iff,
}
use provider_health_daemon.Base.Dict.{Dict, get, put, get-put, get-empty}
use provider_health_daemon.Aliases.{normalize_provider, is_denied}
use provider_health_daemon.Registry.{Entry, Breaker, BreakerState, closed, opened, half_open}
use provider_health_daemon.Registry.Circuit.Machine.{IsValid}
use provider_health_daemon.Registry.Loading.{
  HealthFile, absent, unreadable, holding, StoredBreaker, good, rank_of, merge_into, merge_entries,
  merge_found, merge_keys, migrate_duplicate_keys, normalize_breaker, migrate_breaker, purge,
  denied_model, load,
}

differ : (f : String → Bool) (j k : String) → f j ≡ false → f k ≡ true → str_eq j k ≡ false
differ f j k e h = elim (Bool-cases (str_eq j k)) [
  | inl q ↦ let same = ap f ((eq_iff j k).0 q) in ground arith
  | inr q ↦ q
]

get-purge {ℓ} :
    {V : Type ℓ} (denied : String → Bool) (d : Dict V) (k : String)
    → denied k ≡ true
    → get (purge denied d) k ≡ none
unfolding purge get
get-purge denied [] k h = refl
get-purge denied ((j, v) ∷ d) k h = elim (Bool-cases (denied j)) [
  | inl e ↦ rw e (get-purge denied d k h)
  | inr e ↦
      let apart : str_eq j k ≡ false = differ denied j k e h in
      rw (e, apart) (get-purge denied d k h)
]

-- Whatever the file held, after a load a denied provider has no entry and no account pool, and a model
-- under the name of a denied provider has no entry.
pub load-denied :
    (now : ℕ) (file : HealthFile) (provider model : String)
    → is_denied provider ≡ true
    → is_denied (before b'/' model) ≡ true
    → (get (load now file).providers provider ≡ none)
      × (get (load now file).accounts provider ≡ none)
      × (get (load now file).models model ≡ none)
unfolding load get
load-denied now absent provider model h k = (refl, refl, refl)
load-denied now unreadable provider model h k = (refl, refl, refl)
load-denied now (holding s) provider model h k = (
  get-purge is_denied _ provider h,
  get-purge is_denied _ provider h,
  get-purge denied_model _ model k,
)

-- The rank of the status of an entry, 0 if there is no entry.
abbrev pub found_rank : Option Entry → ℕ
found_rank none = 0
found_rank (some e) = rank_of e.status

rank-merge_entries :
    (a b : Entry) → rank_of (merge_entries a b).status ≡ max (rank_of a.status) (rank_of b.status)
unfolding merge_entries merge_into
rank-merge_entries a b = elim (Bool-cases (ltb (rank_of a.status) (rank_of b.status))) [
  | inl e ↦ rw e (ground arith)
  | inr e ↦ rw e (ground arith)
]

rank-merge_found :
    (o : Option Entry) (e : Entry)
    → rank_of (merge_found o e).status ≡ max (found_rank o) (rank_of e.status)
unfolding merge_found
rank-merge_found none e = ground arith
rank-merge_found (some a) e = rank-merge_entries a e

-- The worst rank of the entries of the file that have this canonical name.
unfoldable pub worst_rank : Dict Entry → String → ℕ
worst_rank [] q = 0
worst_rank ((raw, e) ∷ d) q =
    max (if str_eq (normalize_provider raw) q then rank_of e.status else 0) (worst_rank d q)

found_rank-if :
    (b : Bool) (e : Entry) (o : Option Entry)
    → found_rank (if b then some e else o) ≡ (if b then rank_of e.status else found_rank o)
found_rank-if true e o = refl
found_rank-if false e o = refl

rank-put :
    (merged : Dict Entry) (c q : String) (e : Entry)
    → found_rank (get (put merged c (merge_found (get merged c) e)) q)
      ≡ max (found_rank (get merged q)) (if str_eq c q then rank_of e.status else 0)
rank-put merged c q e =
    let new = merge_found (get merged c) e in
    ap found_rank (get-put merged c q new)
    ∙ found_rank-if (str_eq c q) new (get merged q)
    ∙ elim (Bool-cases (str_eq c q)) [
      | inl s ↦ rw s (
          rank-merge_found (get merged c) e
          ∙ ap (λ k. max (found_rank (get merged k)) (rank_of e.status)) ((eq_iff c q).0 s))
      | inr s ↦ rw s (omega arith)
    ]

rank-merge_keys :
    (merged d : Dict Entry) (q : String)
    → found_rank (get (merge_keys merged d) q) ≡ max (found_rank (get merged q)) (worst_rank d q)
unfolding merge_keys worst_rank
rank-merge_keys merged [] q = omega arith
rank-merge_keys merged ((raw, e) ∷ d) q =
    let c = normalize_provider raw in
    rank-merge_keys (put merged c (merge_found (get merged c) e)) d q
    ∙ ap (λ n. max n (worst_rank d q)) (rank-put merged c q e)
    ∙ omega arith

-- Merging the entries whose names normalise to the same one keeps the worst status among them: disabled, then
-- cooldown, then probing, then any other.
pub migrate_duplicate_keys-rank :
    (d : Dict Entry) (q : String) → found_rank (get (migrate_duplicate_keys d) q) ≡ worst_rank d q
unfolding migrate_duplicate_keys
migrate_duplicate_keys-rank d q =
    rank-merge_keys [] d q ∙ rw (get-empty {V = Entry} q) (omega arith)

-- What the file holds of a breaker that was saved.
abbrev pub stored : Breaker → StoredBreaker
stored cb = record {
  state = some cb.state;
  failures = good cb.failures;
  successes = good cb.successes;
  last_failure = cb.last_failure;
  last_state_change = some cb.last_state_change;
  half_open_requests = good cb.half_open_requests;
  recent_429s = some cb.recent_429s;
}

abbrev pub is_half_open : BreakerState → Bool
is_half_open half_open = true
is_half_open _ = false

-- A breaker that a restart has not hurt: it is valid, and is as it was but for the counters of a half-open one.
abbrev pub Restarted : Breaker → Breaker → Type 0
Restarted cb after =
    IsValid after
    × (after.state ≡ cb.state)
    × (after.failures ≡ cb.failures)
    × (after.recent_429s ≡ cb.recent_429s)
    × (after.half_open_requests ≡ (if is_half_open cb.state then 0 else cb.half_open_requests))
    × (after.successes ≡ (if is_half_open cb.state then 0 else cb.successes))

normalize_breaker-Restarted :
    (now : ℕ) (cb : Breaker) (s : BreakerState)
    → cb.state ≡ s
    → IsValid cb
    → Restarted cb (normalize_breaker now cb s)
unfolding normalize_breaker
normalize_breaker-Restarted now cb closed e v = (v, refl, refl, refl, rw e refl, rw e refl)
normalize_breaker-Restarted now cb opened e v = (v, refl, refl, refl, rw e refl, rw e refl)
normalize_breaker-Restarted now cb half_open e v = (
  record { requests = omega arith; counts = ground arith },
  refl,
  refl,
  refl,
  rw e refl,
  rw e refl,
)
normalize_breaker-Restarted now cb (BreakerState.other t) e v = ground arith

-- A valid breaker that was saved is valid after a load, with the same state, failures and rate
-- limits; and if it is half open, the requests that were reserved and the successes that were counted
-- before the restart are gone.
pub migrate_breaker-Restarted :
    (now : ℕ) (cb : Breaker) → IsValid cb → Restarted cb (migrate_breaker now (some (stored cb)))
unfolding migrate_breaker
migrate_breaker-Restarted now cb v = normalize_breaker-Restarted now cb cb.state refl v
