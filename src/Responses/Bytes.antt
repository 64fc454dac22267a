-- ===== src/Responses/Bytes.antt =====
-- proxy_handler.py: the bytes that the response cache counts, and those that it holds.
use provider_health_daemon.Base.{
  ℕ, zero, suc, ◌≤◌, String, List, [], ◌∷◌, length, sum_by, arith, Bool-cases, Option-cases, inl,
  inr,
}
use provider_health_daemon.Base.Dict.{Dict, get, values, sum_by-remove}
use provider_health_daemon.Responses.{
  CachedResponse, ResponseCache, Body, pop_response, pop_all, oldest_key, expired_keys,
  response_cache_max_bytes, pop_oldest, make_room, roomy, is_over_cap,
}

abbrev pub size_of : CachedResponse → ℕ
size_of e = length e.body

-- The bytes of the bodies that are held.
abbrev pub held_bytes : ResponseCache → ℕ
held_bytes c = sum_by size_of (values c.entries)

-- The counter is no less than the bytes that are held.
abbrev pub Covers : ResponseCache → Type 0
Covers c = held_bytes c ≤ c.bytes

pub pop_response-Covers :
    (c : ResponseCache) (key : String) → Covers c → Covers (pop_response c key)
unfolding pop_response
pop_response-Covers c key h = elim (Option-cases (get c.entries key)) [
  | inl e ↦ rw e h
  | inr (v, e) ↦ let s = sum_by-remove size_of c.entries key v e in rw e (omega arith)
]

-- What is popped is no longer held, and nothing is added.
pub pop_response-le :
    (c : ResponseCache) (key : String) → held_bytes (pop_response c key) ≤ held_bytes c
unfolding pop_response
pop_response-le c key = elim (Option-cases (get c.entries key)) [
  | inl e ↦ rw e (omega arith)
  | inr (v, e) ↦ let s = sum_by-remove size_of c.entries key v e in rw e (omega arith)
]

-- What the cache is after a call: the counter covers what is held, which is within the cap.
abbrev pub Bounded : ResponseCache → Type 0
Bounded c = Covers c × (held_bytes c ≤ response_cache_max_bytes)

pub pop_response-Bounded :
    (c : ResponseCache) (key : String) → Bounded c → Bounded (pop_response c key)
pop_response-Bounded c key (h, k) =
    let s = pop_response-le c key in (pop_response-Covers c key h, omega arith)

pub pop_all-Bounded : (c : ResponseCache) (ks : List String) → Bounded c → Bounded (pop_all c ks)
unfolding pop_all
pop_all-Bounded c [] b = b
pop_all-Bounded c (k ∷ ks) b = pop_all-Bounded (pop_response c k) ks (pop_response-Bounded c k b)

pop_oldest-Bounded :
    (c : ResponseCache) (es : Dict CachedResponse) → Bounded c → Bounded (pop_oldest c es)
pop_oldest-Bounded c [] b = b
pop_oldest-Bounded c (e ∷ es) b = pop_response-Bounded c (oldest_key e es) b

pub make_room-Bounded :
    (fuel : ℕ) (c : ResponseCache) (size : ℕ) → Bounded c → Bounded (make_room fuel c size)
unfolding make_room
make_room-Bounded zero c size b = b
make_room-Bounded (suc fuel) c size b = elim (Bool-cases (is_over_cap c size c.entries)) [
  | inl e ↦
      rw e (make_room-Bounded fuel (pop_oldest c c.entries) size (pop_oldest-Bounded c c.entries b))
  | inr e ↦ rw e b
]

pub roomy-Bounded :
    (now : ℕ) (c : ResponseCache) (body : Body) → Bounded c → Bounded (roomy now c body)
unfolding roomy
roomy-Bounded now c body b =
    let swept = pop_all c (expired_keys now c.entries) in
    make_room-Bounded (length swept.entries) swept (length body)
      (pop_all-Bounded c (expired_keys now c.entries) b)
