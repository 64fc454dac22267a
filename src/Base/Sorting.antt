-- ===== src/Base/Sorting.antt =====
-- A stable sort by a Boolean test that stands for "has a lesser key": `list.sort(key=...)`.
use Prim.Native.Nat.{ℕ, ◌+◌}
use mathlib.Core.Path.{◌≡◌, refl, ap, sym, subst, ◌∙◌}
use mathlib.Core.Bool.{Bool, true, false}
use mathlib.Core.Logic.{inl, inr}
use mathlib.Core.List.{List, [], ◌∷◌}
use native.Mathlib.Omega.{arith}
use provider_health_daemon.Base.Tests.{if◌then◌else◌, Bool-cases}
use provider_health_daemon.Base.Lists.{All, All-imp, sum_by}

module _ {ℓ} {A : Type ℓ} (lesser : A → A → Bool) where
  -- In front of those whose key is not less.
  unfoldable pub insert : A → List A → List A
  insert x [] = x ∷ []
  insert x (y ∷ ys) = let rest = insert x ys in if lesser y x then y ∷ rest else x ∷ y ∷ ys

  unfoldable pub sort : List A → List A
  unfolding insert
  sort [] = []
  sort (x ∷ xs) = insert x (sort xs)

  -- No key is less than that of an element before it.
  abbrev pub Sorted : List A → Type 0
  Sorted [] = Unit
  Sorted (x ∷ xs) = All (λ y. lesser y x ≡ false) xs × Sorted xs

  -- The test is that of a total preorder.
  pub record IsOrder : Type ℓ where
    pub asym : (x y : A) → lesser y x ≡ true → lesser x y ≡ false
    pub trans : (x y z : A) → lesser y x ≡ false → lesser z y ≡ false → lesser z x ≡ false

module _ {ℓ} {A : Type ℓ} (lesser : A → A → Bool) where
  pub All-insert {κ} :
      (P : A → Type κ) (x : A) (ys : List A) → P x → All P ys → All P (insert lesser x ys)
  unfolding insert
  All-insert P x [] p a = (p, tt)
  All-insert P x (y ∷ ys) p a = elim (Bool-cases (lesser y x)) [
    | inl e ↦ rw e (a.0, All-insert P x ys p a.1)
    | inr e ↦ rw e (p, a)
  ]

  pub All-sort {κ} : (P : A → Type κ) (xs : List A) → All P xs → All P (sort lesser xs)
  unfolding sort
  All-sort P [] a = tt
  All-sort P (x ∷ xs) a = All-insert P x (sort lesser xs) a.0 (All-sort P xs a.1)

  by_test {κ} :
      (b : Bool) (P : A → Type κ) (x y : A) (ys : List A)
      → (All P (insert lesser x ys) → P x × All P ys)
      → All P (if b then y ∷ insert lesser x ys else x ∷ y ∷ ys)
      → P x × All P (y ∷ ys)
  by_test true P x y ys f a = let k = f a.1 in (k.0, (a.0, k.1))
  by_test false P x y ys f a = a

  All-insert_inv {κ} :
      (P : A → Type κ) (x : A) (ys : List A) → All P (insert lesser x ys) → P x × All P ys
  unfolding insert
  All-insert_inv P x [] a = a
  All-insert_inv P x (y ∷ ys) a = by_test (lesser y x) P x y ys (All-insert_inv P x ys) a

  -- What holds of every element of the sorted list holds of every element of the list.
  pub All-sort_inv {κ} : (P : A → Type κ) (xs : List A) → All P (sort lesser xs) → All P xs
  unfolding sort
  All-sort_inv P [] a = tt
  All-sort_inv P (x ∷ xs) a =
      let k = All-insert_inv P x (sort lesser xs) a in (k.0, All-sort_inv P xs k.1)

  sum_by-insert :
      (f : A → ℕ) (x : A) (ys : List A) → sum_by f (insert lesser x ys) ≡ f x + sum_by f ys
  unfolding insert sum_by
  sum_by-insert f x [] = refl
  sum_by-insert f x (y ∷ ys) = ground (arith, sum_by-insert f x ys)

  -- Whatever is counted, the sort has it as often.
  pub sum_by-sort : (f : A → ℕ) (xs : List A) → sum_by f (sort lesser xs) ≡ sum_by f xs
  unfolding sort sum_by
  sum_by-sort f [] = refl
  sum_by-sort f (x ∷ xs) = sum_by-insert f x (sort lesser xs) ∙ ap (λ n. f x + n) (sum_by-sort f xs)

  insert-Sorted :
      IsOrder lesser → (x : A) (ys : List A) → Sorted lesser ys → Sorted lesser (insert lesser x ys)
  unfolding insert
  insert-Sorted o x [] h = (tt, tt)
  insert-Sorted o x (y ∷ ys) h = elim (Bool-cases (lesser y x)) [
    | inl e ↦
        rw e
          (All-insert (λ z. lesser z y ≡ false) x ys (o.asym x y e) h.0, insert-Sorted o x ys h.1)
    | inr e ↦ rw e ((e, All-imp (λ z k. o.trans x y z e k) ys h.0), h)
  ]

  pub sort-Sorted : IsOrder lesser → (xs : List A) → Sorted lesser (sort lesser xs)
  unfolding sort
  sort-Sorted o [] = tt
  sort-Sorted o (x ∷ xs) = insert-Sorted o x (sort lesser xs) (sort-Sorted o xs)

  -- The first of the sorted list: no element of the list has a lesser key.
  pub sort-least :
      IsOrder lesser
      → (xs ys : List A) (x : A) → lesser x x ≡ false
      → sort lesser xs ≡ x ∷ ys
      → All (λ y. lesser y x ≡ false) xs
  sort-least o xs ys x r e =
      let s : Sorted lesser (x ∷ ys) = subst (Sorted lesser) e (sort-Sorted o xs) in
      All-sort_inv (λ y. lesser y x ≡ false) xs
        (subst (All (λ y. lesser y x ≡ false)) (sym e) (r, s.0))
