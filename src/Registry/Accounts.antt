-- ===== src/Registry/Accounts.antt =====
-- health_registry.py: the account pools of the providers. A number is the only value that
-- `backoffLevel` has, and an id is a text or a number.
use provider_health_daemon.Base.{
  ℕ, suc, ◌+◌, ◌≤◌, ◌<◌, String, Bool, true, false, Option, none, some, List, [], ◌∷◌, ◌≡◌, ◌↔◌,
  refl, ap, sym, if◌then◌else◌, str_eq, ◌==◌, ltb, elem, or_else, filter, length, not, arith,
  length-filter-le, Bool-cases, inl, inr, eq_iff, eq_refl,
}
use provider_health_daemon.Base.Dict.{Dict, get, put, get-put}
use provider_health_daemon.Aliases.{normalize_provider, is_denied}
use provider_health_daemon.Registry.{
  Registry, Health, Account, Value, null, text, number, mapping, save,
}
pub mod Pools

-- `a.get("id")` if it is not `None`.
unfoldable pub not_null : Option Value → Option Value
not_null none = none
not_null (some null) = none
not_null (some (text t)) = some (text t)
not_null (some (number n)) = some (number n)
not_null (some (mapping m)) = some (mapping m)

unfoldable pub id_eq : Value → Value → Bool
id_eq (text a) (text b) = str_eq a b
id_eq (number a) (number b) = a == b
id_eq _ _ = false

-- The last account that has the id, which is the one that a dictionary by ids keeps.
unfoldable pub find_account : Value → List Account → Option Account
unfolding id_eq
find_account i [] = none
find_account i (a ∷ later) =
    let rest = find_account i later in
    elim rest [
      | some b ↦ some b
      | none ↦ elim (not_null (get a "id")) [
        | none ↦ none
        | some j ↦ if id_eq i j then some a else none
      ]
    ]

-- `base.update(a)`
unfoldable pub merge_fields : Account → Account → Account
merge_fields base [] = base
merge_fields base ((k, v) ∷ rest) = merge_fields (put base k v) rest

unfoldable pub merge_account : List Account → Account → Account
unfolding not_null find_account merge_fields
merge_account existing a = elim (not_null (get a "id")) [
  | none ↦ a
  | some i ↦ elim (find_account i existing) [ none ↦ a | some base ↦ merge_fields base a ]
]

-- The accounts that are sent, `none` for what is no dictionary.
unfoldable pub merge_pool : List Account → List (Option Account) → List Account
unfolding merge_account
merge_pool existing [] = []
merge_pool existing (none ∷ rest) = merge_pool existing rest
merge_pool existing (some a ∷ rest) = merge_account existing a ∷ merge_pool existing rest

unfoldable pub sync_pool : Registry → String → List (Option Account) → Registry
unfolding merge_pool
sync_pool r prefix accounts =
    let existing = or_else (get r.health.accounts prefix) [] in
    record r {
      health = record r.health {
        accounts = put r.health.accounts prefix (merge_pool existing accounts);
      };
    }

-- The loop over the providers, `none` for what is no list.
unfoldable pub sync_pools : Registry → Dict (Option (List (Option Account))) → Registry
unfolding sync_pool
sync_pools r [] = r
sync_pools r ((prefix, none) ∷ rest) = sync_pools r rest
sync_pools r ((prefix, some accounts) ∷ rest) =
    sync_pools (if is_denied prefix then r else sync_pool r prefix accounts) rest

unfoldable pub sync_accounts : Registry → Dict (Option (List (Option Account))) → Registry
unfolding sync_pools
sync_accounts r accounts_by_provider = save (sync_pools r accounts_by_provider)

unfoldable pub get_accounts : Registry → String → List Account
get_accounts r provider = or_else (get r.health.accounts (normalize_provider provider)) []

-- Whether the account's status is "error" or "unavailable"; without one it is "active".
unfoldable pub is_bad : Account → Bool
is_bad a = elim (or_else (get a "status") (text "active")) [
  | text t ↦ elem t ("error" ∷ "unavailable" ∷ [])
  | _ ↦ false
]

-- Whether a value is true in a condition.
unfoldable pub is_truthy : Option Value → Bool
is_truthy none = false
is_truthy (some null) = false
is_truthy (some (text t)) = not (str_eq t "")
is_truthy (some (number n)) = ltb 0 n
is_truthy (some (mapping [])) = false
is_truthy (some (mapping (e ∷ es))) = true

unfoldable pub is_locked : Account → Bool
unfolding is_truthy
is_locked a = is_truthy (get a "model_locks")

unfoldable pub backs_off : Account → Bool
backs_off a = elim (or_else (get a "backoffLevel") (number 0)) [ number n ↦ ltb 0 n | _ ↦ false ]

pub record Summary : Type 0 where
  pub count : ℕ
  pub active : ℕ
  pub locked : ℕ
  pub backoff : ℕ
  pub status : String

abbrev pub empty_summary : Summary
empty_summary = record { count = 0; active = 0; locked = 0; backoff = 0; status = "healthy" }

-- One turn of the loop, without the count.
unfoldable pub add_account : Summary → Account → Summary
unfolding is_bad is_locked backs_off
add_account s a = record s {
  active = if is_bad a then s.active else suc s.active;
  locked = if is_locked a then suc s.locked else s.locked;
  backoff = if backs_off a then suc s.backoff else s.backoff;
  status = if is_bad a then "unavailable" else s.status;
}

unfoldable pub summarize : Summary → List Account → Summary
unfolding add_account
summarize s [] = s
summarize s (a ∷ rest) = summarize (add_account s a) rest

unfoldable pub account_summary : Registry → String → Summary
unfolding get_accounts summarize
account_summary r provider =
    let accounts = get_accounts r provider in
    record (summarize empty_summary accounts) { count = length accounts }
