-- ===== src/Proxies/Groups.antt =====
-- proxy_manager.py: the accounts of one provider get different proxies.
use provider_health_daemon.Base.{
  ℕ, zero, suc, ◌+◌, ◌-◌, ◌%◌, ◌≤◌, ◌<◌, ◌≡◌, ◌⊎◌, ltb, refl, sym, ap, ◌∙◌, String, true, false,
  List, [], ◌∷◌, map, elem, length, str_eq, eq_iff, eq_refl, arith, Bool-cases, inl, inr,
}
use native.Mathlib.Nat.{mod-lt, mod-eq_of_lt, mod-eq-sub-mod}
use provider_health_daemon.Base.Sets.{Distinct}
use provider_health_daemon.Proxies.{ProxyAccount, proxy_at, assign_group}

elem-proxy_at : (xs : List String) (i : ℕ) → i < length xs → elem (proxy_at xs i) xs ≡ true
unfolding elem proxy_at
elem-proxy_at [] i h = absurd (omega arith)
elem-proxy_at (x ∷ xs) zero h = rw (eq_refl x) refl
elem-proxy_at (x ∷ xs) (suc i) h = ground (arith, elem-proxy_at xs i)

not_head :
    (x y : String) (xs : List String) → elem x xs ≡ false → elem y xs ≡ true → str_eq x y ≡ false
not_head x y xs h k = elim (Bool-cases (str_eq x y)) [
  | inl e ↦
      let same : x ≡ y = (eq_iff x y).0 e in
      let l : elem y xs ≡ false = ap (λ z. elem z xs) (sym same) ∙ h in cc
  | inr e ↦ e
]

-- Different places of a list without repetitions have different texts.
proxy_at-ne :
    (xs : List String) (i j : ℕ)
    → Distinct xs
    → i < j
    → j < length xs
    → str_eq (proxy_at xs i) (proxy_at xs j) ≡ false
unfolding proxy_at
proxy_at-ne [] i j d h k = absurd (omega arith)
proxy_at-ne (x ∷ xs) i zero d h k = absurd (omega arith)
proxy_at-ne (x ∷ xs) zero (suc j) d h k =
    not_head x (proxy_at xs j) xs d.0 (elem-proxy_at xs j (omega arith))
proxy_at-ne (x ∷ xs) (suc i) (suc j) d h k = proxy_at-ne xs i j d.1 (omega arith) (omega arith)

str_eq-sym : (x y : String) → str_eq x y ≡ false → str_eq y x ≡ false
str_eq-sym x y h = ground (arith, eq_iff x y, eq_iff y x)

-- A turn that does not go round, or goes round once.
pub turn-cases :
    (s i n : ℕ)
    → s < n
    → i < n
    → ((s + i < n) × ((s + i) % n ≡ s + i)) ⊎ ((n ≤ s + i) × ((s + i) % n ≡ s + i - n))
turn-cases s i n h k = elim (Bool-cases (ltb (s + i) n)) [
  | inl e ↦ let below : s + i < n = ground arith in inl (below, mod-eq_of_lt below)
  | inr e ↦
      let above : n ≤ s + i = ground arith in
      inr (above, mod-eq-sub-mod above ∙ mod-eq_of_lt (omega arith))
]

turn-ne :
    (xs : List String) (s i j : ℕ)
    → Distinct xs
    → s < length xs
    → i < j
    → j < length xs
    → str_eq (proxy_at xs ((s + i) % length xs)) (proxy_at xs ((s + j) % length xs)) ≡ false
turn-ne xs s i j d h k l = elim (turn-cases s i (length xs) h (omega arith)) [
  | inl (a, e) ↦ elim (turn-cases s j (length xs) h l) [
    | inl (b, f) ↦ rw (e, f) (proxy_at-ne xs (s + i) (s + j) d (omega arith) b)
    | inr (b, f) ↦
        rw (e, f)
          (str_eq-sym (proxy_at xs (s + j - length xs)) (proxy_at xs (s + i))
            (proxy_at-ne xs (s + j - length xs) (s + i) d (omega arith) a))
  ]
  | inr (a, e) ↦ elim (turn-cases s j (length xs) h l) [
    | inl (b, f) ↦ absurd (omega arith)
    | inr (b, f) ↦
        rw (e, f)
          (proxy_at-ne xs (s + i - length xs) (s + j - length xs) d (omega arith) (omega arith))
  ]
]

abbrev pub proxies_of : List (String × String) → List String
proxies_of = map (λ e. e.1)

later_turns :
    (pool : List String) (s i j : ℕ) (cs : List ProxyAccount)
    → Distinct pool
    → s < length pool
    → i < j
    → j + length cs ≤ length pool
    → elem (proxy_at pool ((s + i) % length pool)) (proxies_of (assign_group pool s j cs)) ≡ false
unfolding assign_group elem
later_turns pool s i j [] d h k l = refl
later_turns pool s i j (c ∷ cs) d h k l =
    rw (turn-ne pool s i j d h k (omega arith))
      (later_turns pool s i (suc j) cs d h (omega arith) (omega arith))

group_turns :
    (pool : List String) (s i : ℕ) (cs : List ProxyAccount)
    → Distinct pool
    → s < length pool
    → i + length cs ≤ length pool
    → Distinct (proxies_of (assign_group pool s i cs))
unfolding assign_group
group_turns pool s i [] d h l = tt
group_turns pool s i (c ∷ cs) d h l = (
  later_turns pool s i (suc i) cs d h (omega arith) (omega arith),
  group_turns pool s (suc i) cs d h (omega arith),
)

-- The proxies of one provider's accounts are all different, from whatever index of the pool they are
-- taken, where the pool has no proxy twice and the provider has no more accounts than the pool proxies.
pub assign_group-Distinct :
    (pool : List String) (pool_idx : ℕ) (cs : List ProxyAccount)
    → Distinct pool
    → 0 < length pool
    → length cs ≤ length pool
    → Distinct (proxies_of (assign_group pool (pool_idx % length pool) 0 cs))
assign_group-Distinct pool pool_idx cs d n l =
    group_turns pool (pool_idx % length pool) 0 cs d (mod-lt pool_idx n) (omega arith)
