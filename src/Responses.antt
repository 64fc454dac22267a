-- ===== src/Responses.antt =====
-- proxy_handler.py: the cache of responses. A body is the list of its bytes. The key of a request is the
-- digest of it, and whether a body is JSON without an error is for the JSON reader to say: both are
-- arguments.
use provider_health_daemon.Base.{
  ℕ, zero, suc, ◌+◌, ◌-◌, ◌*◌, String, Bool, true, false, not, ◌||◌, Option, none, some, List, [],
  ◌∷◌, if◌then◌else◌, ltb, filter, length, str_eq,
}
use provider_health_daemon.Base.Dict.{Dict, get, put, remove, keys}
use provider_health_daemon.Clock.{seconds}
pub mod Bytes
pub mod Room
pub mod Calls
pub mod Reuse

abbrev pub response_cache_ttl : ℕ
response_cache_ttl = seconds 60

abbrev pub response_cache_max_bytes : ℕ
response_cache_max_bytes = 8 * 1024 * 1024

abbrev pub Body : Type 0
Body = List ℕ

-- When it expires, and the body.
pub record CachedResponse : Type 0 where
  pub expires_at : ℕ
  pub body : Body

-- `_response_cache` and `_response_cache_bytes`
pub record ResponseCache : Type 0 where
  pub entries : Dict CachedResponse
  pub bytes : ℕ

-- `pop(key)`, with the bytes of the body no longer counted
abbrev pub pop_held : ResponseCache → String → Option CachedResponse → ResponseCache
pop_held c key none = c
pop_held c key (some e) = record { entries = remove c.entries key; bytes = c.bytes - length e.body }

unfoldable pub pop_response : ResponseCache → String → ResponseCache
pop_response c key = pop_held c key (get c.entries key)

-- `_cache_get_key`
abbrev pub held_response :
    ℕ → ResponseCache → String → Option CachedResponse → ResponseCache × Option Body
held_response now c key none = (c, none)
held_response now c key (some e) =
    if ltb e.expires_at now then (pop_response c key, none) else (c, some e.body)

unfoldable pub cache_get_key : ℕ → ResponseCache → String → ResponseCache × Option Body
cache_get_key now c key = held_response now c key (get c.entries key)

-- A request, if there is one: whether it streams, and its key.
unfoldable pub cache_get : ℕ → ResponseCache → Option (Bool × String) → ResponseCache × Option Body
cache_get now c none = (c, none)
cache_get now c (some (stream, key)) = if stream then (c, none) else cache_get_key now c key

-- The keys of the entries that have expired, and the loop that pops them.
abbrev pub expired_keys : ℕ → Dict CachedResponse → List String
expired_keys now entries = keys (filter (λ e. ltb e.1.expires_at now) entries)

unfoldable pub pop_all : ResponseCache → List String → ResponseCache
pop_all c [] = c
pop_all c (key ∷ rest) = pop_all (pop_response c key) rest

-- The key of the first of the entries that expire the earliest.
unfoldable pub oldest_key : String × CachedResponse → Dict CachedResponse → String
oldest_key best [] = best.0
oldest_key best (e ∷ es) = oldest_key (if ltb e.1.expires_at best.1.expires_at then e else best) es

abbrev pub pop_oldest : ResponseCache → Dict CachedResponse → ResponseCache
pop_oldest c [] = c
pop_oldest c (e ∷ es) = pop_response c (oldest_key e es)

abbrev pub is_over_cap : ResponseCache → ℕ → Dict CachedResponse → Bool
is_over_cap c size [] = false
is_over_cap c size (e ∷ es) = ltb response_cache_max_bytes (c.bytes + size)

-- The loop that makes room for so many bytes; every round pops one entry.
unfoldable pub make_room : ℕ → ResponseCache → ℕ → ResponseCache
make_room zero c size = c
make_room (suc fuel) c size =
    let rest = make_room fuel (pop_oldest c c.entries) size in
    if is_over_cap c size c.entries then rest else c

unfoldable pub store_response : ℕ → ResponseCache → String → Body → ResponseCache
store_response now c key body = record {
  entries = put c.entries key (record { expires_at = now + response_cache_ttl; body = body });
  bytes = c.bytes + length body;
}

abbrev pub no_response : String → Body → Bool
no_response key [] = true
no_response key (b ∷ bs) = str_eq key ""

unfoldable pub roomy : ℕ → ResponseCache → Body → ResponseCache
roomy now c body =
    let swept = pop_all c (expired_keys now c.entries) in
    make_room (length swept.entries) swept (length body)

-- `_cache_put_key`
unfoldable pub cache_put_key : (Body → Bool) → ℕ → ResponseCache → String → Body → ResponseCache
cache_put_key is_cacheable now c key body =
    if no_response key body || not (is_cacheable body)
    then c
    else store_response now (roomy now c body) key body

-- `_cache_put`
unfoldable pub cache_put :
    (Body → Bool) → ℕ → ResponseCache → Option (Bool × String) → Body → ResponseCache
cache_put is_cacheable now c none body = c
cache_put is_cacheable now c (some (stream, key)) body =
    if stream then c else cache_put_key is_cacheable now c key body
