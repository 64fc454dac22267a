-- ===== src/Responses/Calls.antt =====
-- proxy_handler.py: what the calls of the response cache keep.
use provider_health_daemon.Base.{
  ℕ, ◌+◌, ◌≤◌, String, Bool, true, false, not, ◌||◌, Option, none, some, List, [], ◌∷◌, ltb, length,
  arith, Bool-cases, inl, inr,
}
use provider_health_daemon.Base.Dict.{get, sum_by-put}
use provider_health_daemon.Responses.{
  CachedResponse, ResponseCache, Body, pop_all, cache_get_key, cache_get, roomy, expired_keys,
  store_response, cache_put_key, cache_put, no_response, response_cache_max_bytes,
  response_cache_ttl, held_response,
}
use provider_health_daemon.Responses.Bytes.{
  size_of, held_bytes, Covers, Bounded, pop_response-Bounded, roomy-Bounded,
}
use provider_health_daemon.Responses.Room.{make_room-fits}

-- A call of a request handler.
pub data CacheCall : Type 0 where
  ask : ℕ → Option (Bool × String) → CacheCall
  keep : (Body → Bool) → ℕ → Option (Bool × String) → Body → CacheCall

unfoldable pub cache_after : ResponseCache → List CacheCall → ResponseCache
cache_after c [] = c
cache_after c (ask now request ∷ calls) = cache_after (cache_get now c request).0 calls
cache_after c (keep is_cacheable now request body ∷ calls) =
    cache_after (cache_put is_cacheable now c request body) calls

-- The bodies to keep are within the cap.
unfoldable pub WithinCap : List CacheCall → Type 0
WithinCap [] = Unit
WithinCap (ask now request ∷ calls) = WithinCap calls
WithinCap (keep is_cacheable now request body ∷ calls) =
    (length body ≤ response_cache_max_bytes) × WithinCap calls

held_response-Bounded :
    (now : ℕ) (c : ResponseCache) (key : String) (held : Option CachedResponse)
    → Bounded c
    → Bounded (held_response now c key held).0
held_response-Bounded now c key none b = b
held_response-Bounded now c key (some e) b = elim (Bool-cases (ltb e.expires_at now)) [
  | inl q ↦ rw q (pop_response-Bounded c key b)
  | inr q ↦ rw q b
]

cache_get-Bounded :
    (now : ℕ) (c : ResponseCache) (request : Option (Bool × String))
    → Bounded c
    → Bounded (cache_get now c request).0
unfolding cache_get cache_get_key
cache_get-Bounded now c none b = b
cache_get-Bounded now c (some (true, key)) b = b
cache_get-Bounded now c (some (false, key)) b =
    held_response-Bounded now c key (get c.entries key) b

store_response-Bounded :
    (now : ℕ) (c : ResponseCache) (key : String) (body : Body)
    → Covers c
    → held_bytes c + length body ≤ response_cache_max_bytes
    → Bounded (store_response now c key body)
unfolding store_response
store_response-Bounded now c key body cov f =
    let e : CachedResponse = record { expires_at = now + response_cache_ttl; body = body } in
    let s = sum_by-put size_of c.entries key e in (omega arith, omega arith)

roomy-fits :
    (now : ℕ) (c : ResponseCache) (body : Body)
    → Bounded c
    → length body ≤ response_cache_max_bytes
    → held_bytes (roomy now c body) + length body ≤ response_cache_max_bytes
unfolding roomy
roomy-fits now c body b s =
    let swept = pop_all c (expired_keys now c.entries) in
    make_room-fits swept (length body) ((roomy-Bounded now c body b).0) s

cache_put-Bounded :
    (is_cacheable : Body → Bool) (now : ℕ) (c : ResponseCache) (request : Option (Bool × String))
    (body : Body)
    → Bounded c
    → length body ≤ response_cache_max_bytes
    → Bounded (cache_put is_cacheable now c request body)
unfolding cache_put cache_put_key
cache_put-Bounded p now c none body b s = b
cache_put-Bounded p now c (some (true, key)) body b s = b
cache_put-Bounded p now c (some (false, key)) body b s =
    elim (Bool-cases (no_response key body || not (p body))) [
      | inl e ↦ rw e b
      | inr e ↦
          let (cov, _) = roomy-Bounded now c body b in
          rw e
            (store_response-Bounded now (roomy now c body) key body cov (roomy-fits now c body b s))
    ]

-- If the counter of bytes is no less than the bytes of the bodies that the cache holds, and these are within
-- the cap, both stay so whatever the cache is asked for and told to keep, and whenever, as long as no body
-- to keep is above the cap.
pub cache_calls-Bounded :
    (c : ResponseCache) (calls : List CacheCall)
    → Bounded c
    → WithinCap calls
    → Bounded (cache_after c calls)
unfolding cache_after WithinCap
cache_calls-Bounded c [] b w = b
cache_calls-Bounded c (ask now request ∷ calls) b w =
    cache_calls-Bounded (cache_get now c request).0 calls (cache_get-Bounded now c request b) w
cache_calls-Bounded c (keep p now request body ∷ calls) b (s, w) =
    cache_calls-Bounded (cache_put p now c request body) calls
      (cache_put-Bounded p now c request body b s) w
