-- ===== src/Base/Lists.antt =====
-- Lists over the native numbers: lengths, filters with Boolean tests, predicates by recursion.
use Prim.Native.Nat.{ℕ, zero, suc, ◌+◌, ◌≤◌}
use mathlib.Core.Path.{◌≡◌, refl}
use mathlib.Core.Bool.{Bool, true, false, ◌&&◌, ◌||◌}
use mathlib.Core.Logic.{inl, inr}
use mathlib.Core.List.{List, [], ◌∷◌, ◌++◌}
use native.Mathlib.Omega.{arith}
use provider_health_daemon.Base.Tests.{if◌then◌else◌, Bool-cases}

module _ {ℓ} {A : Type ℓ} where
  abbrev pub length : List A → ℕ
  length [] = 0
  length (x ∷ xs) = suc (length xs)

  -- `[x for x in xs if p(x)]`
  unfoldable pub filter : (A → Bool) → List A → List A
  filter p [] = []
  filter p (x ∷ xs) = let rest = filter p xs in if p x then x ∷ rest else rest

  -- `any(p(x) for x in xs)` and `all(p(x) for x in xs)`
  unfoldable pub any : (A → Bool) → List A → Bool
  any p [] = false
  any p (x ∷ xs) = p x || any p xs

  unfoldable pub all : (A → Bool) → List A → Bool
  all p [] = true
  all p (x ∷ xs) = p x && all p xs

  abbrev pub take : ℕ → List A → List A
  take zero xs = []
  take (suc n) [] = []
  take (suc n) (x ∷ xs) = x ∷ take n xs

  abbrev pub drop : ℕ → List A → List A
  drop zero xs = xs
  drop (suc n) [] = []
  drop (suc n) (x ∷ xs) = drop n xs

  -- `sum(f(x) for x in xs)`
  unfoldable pub sum_by : (A → ℕ) → List A → ℕ
  sum_by f [] = 0
  sum_by f (x ∷ xs) = f x + sum_by f xs

  abbrev pub All {κ} : (A → Type κ) → List A → Type κ
  All P [] = Unit
  All P (x ∷ xs) = P x × All P xs

  pub length-append : (xs ys : List A) → length (xs ++ ys) ≡ length xs + length ys
  length-append [] ys = omega arith
  length-append (x ∷ xs) ys = omega (arith, length-append xs ys)

  pub length-take-le : (n : ℕ) (xs : List A) → length (take n xs) ≤ n
  length-take-le zero xs = omega arith
  length-take-le (suc n) [] = omega arith
  length-take-le (suc n) (x ∷ xs) = omega (arith, length-take-le n xs)

  pub sum_by-take-le : (f : A → ℕ) (n : ℕ) (xs : List A) → sum_by f (take n xs) ≤ sum_by f xs
  unfolding sum_by
  sum_by-take-le f zero xs = omega arith
  sum_by-take-le f (suc n) [] = omega arith
  sum_by-take-le f (suc n) (x ∷ xs) = omega (arith, sum_by-take-le f n xs)

  pub length-filter-le : (p : A → Bool) (xs : List A) → length (filter p xs) ≤ length xs
  unfolding filter
  length-filter-le p [] = omega arith
  length-filter-le p (x ∷ xs) = ground (arith, length-filter-le p xs)

  pub sum_by-append : (f : A → ℕ) (xs ys : List A) → sum_by f (xs ++ ys) ≡ sum_by f xs + sum_by f ys
  unfolding sum_by
  sum_by-append f [] ys = omega arith
  sum_by-append f (x ∷ xs) ys = omega (arith, sum_by-append f xs ys)

  pub all-append :
      (p : A → Bool) (xs ys : List A) → all p xs ≡ true → all p ys ≡ true → all p (xs ++ ys) ≡ true
  unfolding all
  all-append p [] ys h k = k
  all-append p (x ∷ xs) ys h k = elim (Bool-cases (p x)) [
    | inl e ↦ let rest : all p xs ≡ true = rw e at h in rw e (all-append p xs ys rest k)
    | inr e ↦ let no : false ≡ true = rw e at h in cc
  ]

  -- A filter keeps what holds of every element, and all that it keeps passes its test.
  pub All-filter_test : (p : A → Bool) (xs : List A) → All (λ x. p x ≡ true) (filter p xs)
  unfolding filter
  All-filter_test p [] = tt
  All-filter_test p (x ∷ xs) = ground (arith, All-filter_test p xs)

  pub All-filter {κ} :
      (P : A → Type κ) (p : A → Bool) (xs : List A) → All P xs → All P (filter p xs)
  unfolding filter
  All-filter P p [] a = tt
  All-filter P p (x ∷ xs) a = elim (Bool-cases (p x)) [
    | inl e ↦ rw e (a.0, All-filter P p xs a.1)
    | inr e ↦ rw e (All-filter P p xs a.1)
  ]

  -- What a filter drops fails its test.
  pub All-filter_inv {κ κ'} :
      {Q : A → Type κ} {R : A → Type κ'} (p : A → Bool)
      → ((x : A) → p x ≡ true → Q x → R x)
      → ((x : A) → p x ≡ false → R x)
      → (xs : List A) → All Q (filter p xs)
      → All R xs
  unfolding filter
  All-filter_inv p f g [] a = tt
  All-filter_inv {Q = Q} p f g (x ∷ xs) a = elim (Bool-cases (p x)) [
    | inl e ↦
        let k : Q x × All Q (filter p xs) = rw e at a in (f x e k.0, All-filter_inv p f g xs k.1)
    | inr e ↦ let k : All Q (filter p xs) = rw e at a in (g x e, All-filter_inv p f g xs k)
  ]

  pub All-imp {κ κ'} :
      {P : A → Type κ} {Q : A → Type κ'} (f : (x : A) → P x → Q x) (xs : List A)
      → All P xs
      → All Q xs
  All-imp f [] a = tt
  All-imp f (x ∷ xs) a = (f x a.0, All-imp f xs a.1)

  pub All-both {κ κ'} :
      (P : A → Type κ) (Q : A → Type κ') (xs : List A)
      → All P xs
      → All Q xs
      → All (λ x. P x × Q x) xs
  All-both P Q [] a b = tt
  All-both P Q (x ∷ xs) a b = ((a.0, b.0), All-both P Q xs a.1 b.1)

  pub sum_by-filter :
      (p : A → Bool) (f : A → ℕ) (xs : List A)
      → sum_by f (filter p xs) ≡ sum_by (λ x. if p x then f x else 0) xs
  unfolding filter sum_by
  sum_by-filter p f [] = refl
  sum_by-filter p f (x ∷ xs) = ground (arith, sum_by-filter p f xs)
