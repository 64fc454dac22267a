-- ===== src/Responses/Room.antt =====
-- proxy_handler.py: the loop of the response cache that makes room for a body.
use provider_health_daemon.Base.{
  ℕ, zero, suc, ◌+◌, ◌≤◌, ◌<◌, ◌≡◌, refl, ap, ◌∙◌, String, true, false, some, [], ◌∷◌, ltb, length,
  sum_by, arith, Bool-cases, inl, inr, str_eq, eq_refl,
}
use provider_health_daemon.Base.Dict.{Dict, get, values, length-remove-lt}
use provider_health_daemon.Responses.{
  CachedResponse, ResponseCache, pop_response, oldest_key, pop_oldest, make_room, is_over_cap,
  response_cache_max_bytes,
}
use provider_health_daemon.Responses.Bytes.{size_of, held_bytes, Covers}

abbrev Held : Dict CachedResponse → String → Type 0
Held d k = (v : CachedResponse) × (get d k ≡ some v)

Held-more :
    (e : String × CachedResponse) (d : Dict CachedResponse) (k : String) → Held d k → Held (e ∷ d) k
unfolding get
Held-more e d k (v, h) = elim (Bool-cases (str_eq e.0 k)) [
  | inl q ↦ (e.1, rw q refl)
  | inr q ↦ (v, rw q h)
]

Held-between :
    (x e : String × CachedResponse) (d : Dict CachedResponse) (k : String)
    → Held (x ∷ d) k
    → Held (x ∷ e ∷ d) k
unfolding get
Held-between x e d k (v, h) = elim (Bool-cases (str_eq x.0 k)) [
  | inl q ↦ (x.1, rw q refl)
  | inr q ↦
      let rest : get d k ≡ some v = rw q at h in
      let (w, r) = Held-more e d k (v, rest) in (w, rw q r)
]

-- The key that expires first is one that is held.
oldest_key-Held :
    (best : String × CachedResponse) (es : Dict CachedResponse)
    → Held (best ∷ es) (oldest_key best es)
unfolding get oldest_key
oldest_key-Held best [] = (best.1, rw (eq_refl best.0) refl)
oldest_key-Held best (e ∷ es) = elim (Bool-cases (ltb e.1.expires_at best.1.expires_at)) [
  | inl q ↦ rw q (Held-more best (e ∷ es) (oldest_key e es) (oldest_key-Held e es))
  | inr q ↦ rw q (Held-between best e es (oldest_key best es) (oldest_key-Held best es))
]

-- Every round has one entry less.
pop_oldest-shrinks :
    (c : ResponseCache) (size : ℕ) (es : Dict CachedResponse)
    → c.entries ≡ es
    → is_over_cap c size es ≡ true
    → length (pop_oldest c es).entries < length c.entries
unfolding pop_response
pop_oldest-shrinks c size [] q h = absurd (ground arith)
pop_oldest-shrinks c size (e ∷ es) q h =
    let (v, g) = oldest_key-Held e es in
    let held : get c.entries (oldest_key e es) ≡ some v = ap (λ d. get d (oldest_key e es)) q ∙ g in
    rw held (length-remove-lt c.entries (oldest_key e es) v held)

empty_not_over :
    (c : ResponseCache) (size : ℕ) (es : Dict CachedResponse)
    → length es ≤ 0
    → is_over_cap c size es ≡ false
empty_not_over c size [] h = refl
empty_not_over c size (e ∷ es) h = absurd (omega arith)

-- If the fuel is no less than the number of entries, the loop that makes room ends where there is room or
-- nothing is left, and more fuel changes nothing.
pub make_room-ends :
    (fuel more : ℕ) (c : ResponseCache) (size : ℕ)
    → length c.entries ≤ fuel
    → (make_room (fuel + more) c size ≡ make_room fuel c size)
      × (is_over_cap (make_room fuel c size) size (make_room fuel c size).entries ≡ false)
unfolding make_room
make_room-ends zero zero c size h = (refl, empty_not_over c size c.entries h)
make_room-ends zero (suc more) c size h =
    let e = empty_not_over c size c.entries h in
    let same : 0 + suc more ≡ suc more = omega arith in
    let stops : make_room (suc more) c size ≡ c = rw e refl in
    (ap (λ k. make_room k c size) same ∙ stops, e)
make_room-ends (suc fuel) more c size h =
    let grows : suc fuel + more ≡ suc (fuel + more) = omega arith in
    elim (Bool-cases (is_over_cap c size c.entries)) [
      | inl e ↦
          let less = pop_oldest-shrinks c size c.entries refl e in
          let (again, room) =
            make_room-ends fuel more (pop_oldest c c.entries) size (omega arith) in
          let same : make_room (suc (fuel + more)) c size ≡ make_room (suc fuel) c size =
            rw e again in
          (ap (λ k. make_room k c size) grows ∙ same, rw e room)
      | inr e ↦
          let same : make_room (suc (fuel + more)) c size ≡ make_room (suc fuel) c size =
            rw e refl in
          (ap (λ k. make_room k c size) grows ∙ same, rw e e)
    ]

-- Where the loop ends, a body within the cap fits.
fits :
    (c : ResponseCache) (size : ℕ) (es : Dict CachedResponse)
    → c.entries ≡ es
    → is_over_cap c size es ≡ false
    → Covers c
    → size ≤ response_cache_max_bytes
    → held_bytes c + size ≤ response_cache_max_bytes
unfolding sum_by
fits c size [] q h cov s =
    let z : held_bytes c ≡ 0 = ap (λ d. sum_by size_of (values d)) q in omega arith
fits c size (e ∷ es) q h cov s =
    let below : c.bytes + size ≤ response_cache_max_bytes = ground arith in omega arith

pub make_room-fits :
    (c : ResponseCache) (size : ℕ)
    → Covers (make_room (length c.entries) c size)
    → size ≤ response_cache_max_bytes
    → held_bytes (make_room (length c.entries) c size) + size ≤ response_cache_max_bytes
make_room-fits c size cov s =
    let r = make_room (length c.entries) c size in
    let (_, e) = make_room-ends (length c.entries) 0 c size (omega arith) in
    fits r size r.entries refl e cov s
