-- ===== src/Responses/Reuse.antt =====
-- proxy_handler.py: what a get of the response cache answers after a body was put.
use provider_health_daemon.Base.{
  ℕ, ◌+◌, ◌<◌, ◌≡◌, refl, String, Bool, true, false, none, some, if◌then◌else◌, ltb, length, arith,
  All, List, [], ◌∷◌, Option, str_eq, eq_iff, or_else, sym, ap, ◌∙◌, ◌≤◌, Bool-cases, Option-cases,
  inl, inr,
}
use provider_health_daemon.Base.Dict.{get, sum_by-put, get-put_self, get-remove_self, get-remove}
use provider_health_daemon.Responses.{
  CachedResponse, ResponseCache, Body, pop_response, cache_get_key, cache_get, roomy,
  store_response, cache_put_key, cache_put, no_response, response_cache_ttl,
}
use provider_health_daemon.Responses.Bytes.{size_of, held_bytes}

pop_response-gone : (c : ResponseCache) (key : String) → get (pop_response c key).entries key ≡ none
unfolding pop_response
pop_response-gone c key = elim (Option-cases (get c.entries key)) [
  | inl e ↦ rw e e
  | inr (v, e) ↦ rw e (get-remove_self c.entries key)
]

-- The cache after gets at some instants, of some requests.
abbrev pub Gets : Type 0
Gets = List (ℕ × Option (Bool × String))

unfoldable pub after_gets : ResponseCache → Gets → ResponseCache
after_gets c [] = c
after_gets c ((t, request) ∷ rest) = after_gets (cache_get t c request).0 rest

pop_response-keeps :
    (c : ResponseCache) (key held : String)
    → str_eq key held ≡ false
    → get (pop_response c key).entries held ≡ get c.entries held
unfolding pop_response
pop_response-keeps c key held n = elim (Option-cases (get c.entries key)) [
  | inl q ↦ rw q refl
  | inr (v, q) ↦ rw q (get-remove c.entries key held ∙ rw n refl)
]

-- A get does not remove an entry that has not expired.
cache_get_key-keeps :
    (t : ℕ) (c : ResponseCache) (key held : String) (e : CachedResponse)
    → get c.entries held ≡ some e
    → t ≤ e.expires_at
    → get (cache_get_key t c key).0.entries held ≡ some e
unfolding cache_get_key
cache_get_key-keeps t c key held e h k = elim (Option-cases (get c.entries key)) [
  | inl q ↦ rw q h
  | inr (v, q) ↦ elim (Bool-cases (ltb v.expires_at t)) [
    | inl late ↦ elim (Bool-cases (str_eq key held)) [
      | inl same ↦
          let found : some v ≡ some e = sym q ∙ ap (get c.entries) ((eq_iff key held).0 same) ∙ h in
          let fresh : v.expires_at ≡ e.expires_at = ap (λ o. (or_else o v).expires_at) found in
          absurd (ground arith)
      | inr other ↦ rw (q, late) (pop_response-keeps c key held other ∙ h)
    ]
    | inr early ↦ rw (q, early) h
  ]
]

cache_get-keeps :
    (t : ℕ) (c : ResponseCache) (request : Option (Bool × String)) (held : String)
    (e : CachedResponse)
    → get c.entries held ≡ some e
    → t ≤ e.expires_at
    → get (cache_get t c request).0.entries held ≡ some e
unfolding cache_get
cache_get-keeps t c none held e h k = h
cache_get-keeps t c (some (true, key)) held e h k = h
cache_get-keeps t c (some (false, key)) held e h k = cache_get_key-keeps t c key held e h k

after_gets-keeps :
    (c : ResponseCache) (gets : Gets) (held : String) (e : CachedResponse)
    → get c.entries held ≡ some e
    → All (λ g. g.0 ≤ e.expires_at) gets
    → get (after_gets c gets).entries held ≡ some e
unfolding after_gets
after_gets-keeps c [] held e h a = h
after_gets-keeps c ((t, request) ∷ rest) held e h a =
    after_gets-keeps (cache_get t c request).0 rest held e
      (cache_get-keeps t c request held e h a.0) a.1

-- What an entry that is held gives to a get.
served :
    (t : ℕ) (c : ResponseCache) (key : String) (e : CachedResponse)
    → get c.entries key ≡ some e
    → ((cache_get_key t c key).1 ≡ (if ltb e.expires_at t then none else some e.body))
      × (e.expires_at < t → get (cache_get_key t c key).0.entries key ≡ none)
unfolding cache_get_key
served t c key e h = elim (Bool-cases (ltb e.expires_at t)) [
  | inl q ↦ rw (h, q) (refl, λ _. pop_response-gone c key)
  | inr q ↦ rw (h, q) (refl, λ late. absurd (ground arith))
]

-- If a body that is not empty and can be cached is put under a key that is not empty, and then only gets
-- are made, of any requests and none after the body expires, the next get of the key answers the body up to
-- the instant when it expires, and answers nothing and removes the entry after that.
pub get-put_response :
    (p : Body → Bool) (now t : ℕ) (c : ResponseCache) (key : String) (body : Body) (gets : Gets)
    → no_response key body ≡ false
    → p body ≡ true
    → All (λ g. g.0 ≤ now + response_cache_ttl) gets
    → ((cache_get t
          (after_gets (cache_put p now c (some (false, key)) body) gets)
          (some (false, key))).1
        ≡ (if ltb (now + response_cache_ttl) t then none else some body))
      × (now + response_cache_ttl < t
          → get
              (cache_get t
                (after_gets (cache_put p now c (some (false, key)) body) gets)
                (some (false, key))).0.entries
              key
            ≡ none)
unfolding cache_get cache_put cache_put_key store_response
get-put_response p now t c key body gets n q a =
    let e : CachedResponse = record { expires_at = now + response_cache_ttl; body = body } in
    let stored = store_response now (roomy now c body) key body in
    let held = get-put_self (roomy now c body).entries key e in
    rw (n, q) (served t (after_gets stored gets) key e (after_gets-keeps stored gets key e held a))

-- If the key is held in the cache that has been made roomy, putting a body under it adds the body's length
-- to the counter, and to the bytes held less than that by the length of the body it replaces.
pub put_response-overcounts :
    (p : Body → Bool) (now : ℕ) (c : ResponseCache) (key : String) (body : Body)
    (old : CachedResponse)
    → no_response key body ≡ false
    → p body ≡ true
    → get (roomy now c body).entries key ≡ some old
    → ((cache_put_key p now c key body).bytes ≡ (roomy now c body).bytes + length body)
      × (held_bytes (cache_put_key p now c key body) + length old.body
          ≡ held_bytes (roomy now c body) + length body)
unfolding cache_put_key store_response
put_response-overcounts p now c key body old n q g =
    let e : CachedResponse = record { expires_at = now + response_cache_ttl; body = body } in
    rw (n, q) (refl, rw g at (sum_by-put size_of (roomy now c body).entries key e))
