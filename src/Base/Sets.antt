-- ===== src/Base/Sets.antt =====
-- A set of texts, as a list without repetitions in the order of insertion.
use mathlib.Core.Path.{◌≡◌, refl}
use mathlib.Core.Logic.{inl, inr}
use mathlib.Core.Bool.{false, ◌||◌}
use mathlib.Core.List.{List, [], ◌∷◌, ◌++◌}
use Prim.Native.String.{String}
use native.Mathlib.Omega.{arith}
use text.Mathlib.Text.{◌==◌ as str_eq}
use text.Mathlib.TextEquality.{eq_iff}
use provider_health_daemon.Base.Tests.{if◌then◌else◌, Bool-cases}
use provider_health_daemon.Base.Lists.{All}
use provider_health_daemon.Base.Text.{elem}

-- `s.add(x)`
unfoldable pub add : List String → String → List String
add xs x = if elem x xs then xs else xs ++ x ∷ []

unfoldable pub add_all : List String → List String → List String
unfolding add
add_all xs [] = xs
add_all xs (y ∷ ys) = add_all (add xs y) ys

All-snoc {κ} :
    (P : String → Type κ) (xs : List String) (y : String) → All P xs → P y → All P (xs ++ y ∷ [])
All-snoc P [] y a h = (h, tt)
All-snoc P (x ∷ xs) y a h = (a.0, All-snoc P xs y a.1 h)

All-add {κ} :
    (P : String → Type κ) (xs : List String) (y : String) → All P xs → P y → All P (add xs y)
unfolding add
All-add P xs y a h = elim (Bool-cases (elem y xs)) [
  | inl e ↦ rw e a
  | inr e ↦ rw e (All-snoc P xs y a h)
]

pub All-add_all {κ} :
    (P : String → Type κ) (out ys : List String) → All P out → All P ys → All P (add_all out ys)
unfolding add_all
All-add_all P out [] a b = a
All-add_all P out (y ∷ ys) a b = All-add_all P (add out y) ys (All-add P out y a b.0) b.1

-- No element of the list occurs again after it.
abbrev pub Distinct : List String → Type 0
Distinct [] = Unit
Distinct (x ∷ xs) = (elem x xs ≡ false) × Distinct xs

elem-snoc : (x y : String) (xs : List String) → elem x (xs ++ y ∷ []) ≡ (elem x xs || str_eq x y)
unfolding elem
elem-snoc x y [] = ground arith
elem-snoc x y (z ∷ xs) = ground (arith, elem-snoc x y xs)

Distinct-snoc :
    (xs : List String) (y : String) → elem y xs ≡ false → Distinct xs → Distinct (xs ++ y ∷ [])
unfolding elem
Distinct-snoc [] y e d = (refl, tt)
Distinct-snoc (x ∷ xs) y e d = (
  ground (arith, elem-snoc x y xs, eq_iff x y, eq_iff y x, d.0),
  Distinct-snoc xs y (ground (arith)) d.1,
)

pub Distinct-add_all : (out ys : List String) → Distinct out → Distinct (add_all out ys)
unfolding add_all add
Distinct-add_all out [] d = d
Distinct-add_all out (y ∷ ys) d = elim (Bool-cases (elem y out)) [
  | inl e ↦ rw e (Distinct-add_all out ys d)
  | inr e ↦ rw e (Distinct-add_all (out ++ y ∷ []) ys (Distinct-snoc out y e d))
]
