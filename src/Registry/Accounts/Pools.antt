-- ===== src/Registry/Accounts/Pools.antt =====
-- health_registry.py: what a sync keeps of an account, and what the summary of a pool counts.
use provider_health_daemon.Base.{
  ℕ, suc, ◌+◌, String, Bool, true, Option, none, some, List, [], ◌∷◌, ◌≡◌, refl, ap, sym, ◌∙◌,
  if◌then◌else◌, str_eq, ◌==◌, filter, length, arith, Bool-cases, inl, inr, eq_iff,
}
use provider_health_daemon.Base.Dict.{get, put, get-put}
use provider_health_daemon.Registry.{Registry, Account, Value}
use provider_health_daemon.Registry.Accounts.{
  not_null, find_account, merge_fields, merge_account, is_bad, is_locked, backs_off, Summary,
  empty_summary, add_account, summarize, get_accounts, account_summary,
}

-- No key stands twice.
abbrev pub UniqueKeys : Account → Type 0
UniqueKeys [] = Unit
UniqueKeys ((k, v) ∷ a) = (get a k ≡ none) × UniqueKeys a

-- The new value of a key, else the old one.
abbrev pub newer : Option Value → Option Value → Option Value
newer none old = old
newer (some v) old = some v

newer_if :
    (k j : String) (v : Value) (new old : Option Value)
    → (str_eq k j ≡ true → new ≡ none)
    → newer new (if str_eq k j then some v else old)
      ≡ newer (if str_eq k j then some v else new) old
newer_if k j v new old h = elim (Bool-cases (str_eq k j)) [
  | inl e ↦ rw (e, h e) refl
  | inr e ↦ rw e refl
]

get-merge_fields :
    (base a : Account) (j : String)
    → UniqueKeys a
    → get (merge_fields base a) j ≡ newer (get a j) (get base j)
unfolding merge_fields get
get-merge_fields base [] j u = refl
get-merge_fields base ((k, v) ∷ a) j u =
    get-merge_fields (put base k v) a j u.1
    ∙ ap (newer (get a j)) (get-put base k j v)
    ∙ newer_if k j v (get a j) (get base j) (λ e. ap (get a) (sym ((eq_iff k j).0 e)) ∙ u.0)

-- A sync of an account without repeated keys, whose id the pool has, gives each key the value that
-- was sent, and keeps the pool's value of a key that was not sent.
pub get-merge_account :
    (existing : List Account) (a base : Account) (i : Value) (k : String)
    → UniqueKeys a
    → not_null (get a "id") ≡ some i
    → find_account i existing ≡ some base
    → get (merge_account existing a) k ≡ newer (get a k) (get base k)
unfolding merge_account
get-merge_account existing a base i k u h f = rw (merge_account, h, f) (get-merge_fields base a k u)

-- What a pool adds to a summary.
Adds : Summary → List Account → Summary → Type 0
Adds s pool after =
    (after.active + length (filter is_bad pool) ≡ s.active + length pool)
    × (after.locked ≡ s.locked + length (filter is_locked pool))
    × (after.backoff ≡ s.backoff + length (filter backs_off pool))
    × (after.status ≡ (if length (filter is_bad pool) == 0 then s.status else "unavailable"))

module _ (b : Bool) (a : Account) (pool : List Account) where
  kept_step :
      (after n m : ℕ)
      → after + length pool ≡ (if b then n else suc n) + m
      → after + length (if b then a ∷ pool else pool) ≡ n + suc m
  kept_step after n m h = ground arith

  counted_step :
      (after n : ℕ)
      → after ≡ (if b then suc n else n) + length pool
      → after ≡ n + length (if b then a ∷ pool else pool)
  counted_step after n h = ground arith

  worst_step :
      (after s : String)
      → after ≡ (if length pool == 0 then if b then "unavailable" else s else "unavailable")
      → after ≡ (if length (if b then a ∷ pool else pool) == 0 then s else "unavailable")
  worst_step after s h = ground arith

summarize-Adds : (s : Summary) (pool : List Account) → Adds s pool (summarize s pool)
unfolding Adds summarize add_account filter
summarize-Adds s [] = (refl, omega arith, omega arith, refl)
summarize-Adds s (a ∷ pool) =
    let (active, locked, backoff, status) = summarize-Adds (add_account s a) pool in
    (
      kept_step (is_bad a) a (filter is_bad pool) _ s.active (length pool) active,
      counted_step (is_locked a) a (filter is_locked pool) _ s.locked locked,
      counted_step (backs_off a) a (filter backs_off pool) _ s.backoff backoff,
      worst_step (is_bad a) a (filter is_bad pool) _ s.status status,
    )

zero_add : (n : ℕ) → 0 + n ≡ n
zero_add n = omega arith

same_status :
    (active bad n : ℕ)
    → active + bad ≡ 0 + n
    → ◌≡◌ {A = String}
        (if bad == 0 then "healthy" else "unavailable")
        (if active == n then "healthy" else "unavailable")
same_status active bad n h = ground arith

-- The summary of a provider's pool counts the accounts that are not bad, those that are locked and those that back off, and
-- is "unavailable" exactly if some account is bad, "healthy" otherwise.
pub account_summary-counts :
    (r : Registry) (provider : String)
    → let pool = get_accounts r provider in
      let s = account_summary r provider in
      (s.count ≡ length pool)
      × (s.active + length (filter is_bad pool) ≡ length pool)
      × (s.locked ≡ length (filter is_locked pool))
      × (s.backoff ≡ length (filter backs_off pool))
      × (s.status ≡ (if s.active == s.count then "healthy" else "unavailable"))
unfolding account_summary Adds
account_summary-counts r provider =
    let (active, locked, backoff, status) =
      summarize-Adds empty_summary (get_accounts r provider) in
    (
      refl,
      active ∙ zero_add _,
      locked ∙ zero_add _,
      backoff ∙ zero_add _,
      status ∙ same_status _ _ _ active,
    )
