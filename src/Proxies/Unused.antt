-- ===== src/Proxies/Unused.antt =====
-- proxy_manager.py: a proxy that the provider does not use yet is taken, where there is one.
use provider_health_daemon.Base.{
  ℕ, zero, suc, ◌+◌, ◌-◌, ◌%◌, ◌≤◌, ◌<◌, ◌≡◌, refl, sym, ap, ◌∙◌, String, true, false, not, List,
  [], ◌∷◌, elem, length, any, arith, Bool-cases, inl, inr, leb, leb→le, ◌==◌, ==_iff,
}
use native.Mathlib.Nat.{mod-lt, mod-eq_of_lt, mod-eq-sub-mod, mod-add-mod}
use provider_health_daemon.Proxies.{proxy_at, scan_pool, pick_unused_proxy}

-- The turn at which a place of the pool comes.
turn_from : (s j n : ℕ) → s < n → j < n → (i : ℕ) × (i < n) × ((s + i) % n ≡ j)
turn_from s j n h k = elim (Bool-cases (leb s j)) [
  | inl e ↦
      let le : s ≤ j = leb→le s j e in
      (j - s, omega arith, ap (λ t. t % n) (omega arith) ∙ mod-eq_of_lt k)
  | inr e ↦
      let gt : j < s = ground arith in
      let round : s + (j + n - s) ≡ j + n = omega arith in
      let back : n ≤ j + n = omega arith in
      let less : j + n - n ≡ j = omega arith in
      (
        j + n - s,
        omega arith,
        ap (λ t. t % n) round ∙ mod-eq-sub-mod back ∙ ap (λ t. t % n) less ∙ mod-eq_of_lt k,
      )
]

turn_of : (offset j n : ℕ) → j < n → (i : ℕ) × (i < n) × ((offset + i) % n ≡ j)
turn_of offset j n h =
    let (i, k, e) = turn_from (offset % n) j n (mod-lt offset (omega arith)) h in
    (i, k, sym (mod-add-mod offset n i) ∙ e)

-- A scan that ends with a proxy in use has seen only proxies in use.
scan_used :
    (pool used : List String) (offset i n : ℕ)
    → elem (scan_pool pool used offset i n) used ≡ true
    → (t : ℕ) → i ≤ t
    → t < i + n
    → elem (proxy_at pool ((offset + t) % length pool)) used ≡ true
unfolding scan_pool
scan_used pool used offset i zero h t a b = absurd (omega arith)
scan_used pool used offset i (suc n) h t a b =
    elim (Bool-cases (elem (proxy_at pool ((offset + i) % length pool)) used)) [
      | inl e ↦
          let rest : elem (scan_pool pool used offset (suc i) n) used ≡ true = rw e at h in
          elim (Bool-cases (t == i)) [
            | inl same ↦ let q : t ≡ i = (==_iff t i).0 same in rw q e
            | inr other ↦ scan_used pool used offset (suc i) n rest t (ground arith) (omega arith)
          ]
      | inr e ↦
          let free : elem (proxy_at pool ((offset + i) % length pool)) used ≡ true = rw e at h in cc
    ]

all_used :
    (pool used : List String)
    → ((j : ℕ) → j < length pool → elem (proxy_at pool j) used ≡ true)
    → any (λ p. not (elem p used)) pool ≡ false
unfolding any proxy_at
all_used [] used h = refl
all_used (p ∷ pool) used h =
    let first : elem p used ≡ true = h 0 (omega arith) in
    rw first (all_used pool used (λ j k. h (suc j) (omega arith)))

place_used :
    (pool used : List String) (offset : ℕ)
    → elem (pick_unused_proxy pool used offset) used ≡ true
    → (j : ℕ) → j < length pool
    → elem (proxy_at pool j) used ≡ true
unfolding pick_unused_proxy
place_used pool used offset h j k =
    let (t, below, e) = turn_of offset j (length pool) k in
    let seen = scan_used pool used offset 0 (length pool) h t (omega arith) (omega arith) in
    ap (λ i. elem (proxy_at pool i) used) (sym e) ∙ seen

-- If the pool has a proxy that is not in use, the one that is picked is not in use, whatever the offset.
pub pick_unused_proxy-unused :
    (pool used : List String) (offset : ℕ)
    → any (λ p. not (elem p used)) pool ≡ true
    → elem (pick_unused_proxy pool used offset) used ≡ false
pick_unused_proxy-unused pool used offset h =
    elim (Bool-cases (elem (pick_unused_proxy pool used offset) used)) [
      | inl e ↦ let none_free = all_used pool used (place_used pool used offset e) in cc
      | inr e ↦ e
    ]
