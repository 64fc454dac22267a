-- ===== src/Base/Dict.antt =====
-- Python's `dict` with text keys, in insertion order: a new key goes to the end, an assignment to a
-- key that is there keeps its place.
use mathlib.Core.Path.{◌≡◌, refl, ap, sym, ◌∙◌, transport}
use mathlib.Core.Bool.{Bool, true, false}
use mathlib.Core.Option.{Option, none, some}
use mathlib.Core.List.{List, [], ◌∷◌, map}
use Prim.Native.String.{String}
use native.Mathlib.Omega.{arith}
use text.Mathlib.Text.{◌==◌}
use text.Mathlib.TextEquality.{eq_iff}
use text.Mathlib.TextPositions.{eq_refl}
use mathlib.Core.Logic.{◌≢◌}
use provider_health_daemon.Base.Tests.{if◌then◌else◌, or_else, Bool-cases, Option-cases}
use provider_health_daemon.Base.Lists.{sum_by, length}
use Prim.Native.Nat.{ℕ, ◌+◌, ◌≤◌, ◌<◌}
use mathlib.Core.Logic.{inl, inr}

abbrev pub Dict {ℓ} : Type ℓ → Type ℓ
Dict V = List (String × V)

module _ {ℓ} {V : Type ℓ} where
  -- `d.get(k)`
  unfoldable pub get : Dict V → String → Option V
  get [] k = none
  get ((j, v) ∷ d) k = if j == k then some v else get d k

  -- `d[k] = v`
  unfoldable pub put : Dict V → String → V → Dict V
  put [] k v = (k, v) ∷ []
  put ((j, w) ∷ d) k v = if j == k then (j, v) ∷ d else (j, w) ∷ put d k v

  -- `d.pop(k, None)`, `del d[k]`
  unfoldable pub remove : Dict V → String → Dict V
  remove [] k = []
  remove ((j, w) ∷ d) k = let rest = remove d k in if j == k then rest else (j, w) ∷ rest

  -- `d.values()` and `d.keys()`
  abbrev pub values : Dict V → List V
  values = map (λ e. e.1)

  abbrev pub keys : Dict V → List String
  keys = map (λ e. e.0)

  pub get-put :
      (d : Dict V) (k j : String) (v : V) → get (put d k v) j ≡ (if k == j then some v else get d j)
  unfolding get put
  get-put [] k j v = refl
  get-put ((i, w) ∷ d) k j v = ground (arith, eq_iff k j, eq_iff i k, eq_iff i j, get-put d k j v)

  pub get-remove :
      (d : Dict V) (k j : String) → get (remove d k) j ≡ (if k == j then none else get d j)
  unfolding get remove
  get-remove [] k j = ground arith
  get-remove ((i, w) ∷ d) k j = ground (arith, eq_iff k j, eq_iff i k, eq_iff i j, get-remove d k j)

module _ {ℓ} {V : Type ℓ} where
  pub get-put_self : (d : Dict V) (k : String) (v : V) → get (put d k v) k ≡ some v
  get-put_self d k v = rw (get-put d k k v, eq_refl k) refl

  pub get-put_ne : (d : Dict V) {k j : String} (v : V) → k ≢ j → get (put d k v) j ≡ get d j
  get-put_ne d {k} {j} v h = rw (get-put d k j v) (ground (arith, eq_iff k j))

  pub get-remove_self : (d : Dict V) (k : String) → get (remove d k) k ≡ none
  get-remove_self d k = rw (get-remove d k k, eq_refl k) refl

  pub get-remove_ne : (d : Dict V) {k j : String} → k ≢ j → get (remove d k) j ≡ get d j
  get-remove_ne d {k} {j} h = rw (get-remove d k j) (ground (arith, eq_iff k j))

-- What a sum over the values changes by when a key is put.
module _ {ℓ} {V : Type ℓ} (f : V → ℕ) where
  abbrev at_key : Option V → ℕ
  at_key none = 0
  at_key (some v) = f v

  pub sum_by-put :
      (d : Dict V) (k : String) (v : V)
      → sum_by f (values (put d k v)) + at_key (get d k) ≡ sum_by f (values d) + f v
  unfolding put get sum_by
  sum_by-put [] k v = omega arith
  sum_by-put ((j, w) ∷ d) k v = elim (Bool-cases (j == k)) [
    | inl e ↦ rw e (omega arith)
    | inr e ↦ rw e (omega (arith, sum_by-put d k v))
  ]

  -- With a default that counts for nothing.
  pub sum_by-put_else :
      (d : Dict V) (k : String) (v default : V)
      → f default ≡ 0
      → sum_by f (values (put d k v)) + f (or_else (get d k) default) ≡ sum_by f (values d) + f v
  sum_by-put_else d k v default z = elim (Option-cases (get d k)) [
    | inl e ↦
        let h : sum_by f (values (put d k v)) + 0 ≡ sum_by f (values d) + f v =
          rw e at (sum_by-put d k v) in
        rw e (omega arith)
    | inr (w, e) ↦ rw e (rw e at (sum_by-put d k v))
  ]

  -- What a sum loses when a key is removed.
  sum_by-remove_le :
      (d : Dict V) (k : String) → sum_by f (values (remove d k)) ≤ sum_by f (values d)
  unfolding remove sum_by
  sum_by-remove_le [] k = omega arith
  sum_by-remove_le ((j, w) ∷ d) k = elim (Bool-cases (j == k)) [
    | inl e ↦ rw e (omega (arith, sum_by-remove_le d k))
    | inr e ↦ rw e (omega (arith, sum_by-remove_le d k))
  ]

  pub sum_by-remove :
      (d : Dict V) (k : String) (v : V)
      → get d k ≡ some v
      → sum_by f (values (remove d k)) + f v ≤ sum_by f (values d)
  unfolding remove get sum_by
  sum_by-remove [] k v h = cc
  sum_by-remove ((j, w) ∷ d) k v h = elim (Bool-cases (j == k)) [
    | inl e ↦
        let q : some w ≡ some v = rw e at h in
        let r : f w ≡ f v = ap (at_key) q in rw e (omega (arith, sum_by-remove_le d k))
    | inr e ↦ let q : get d k ≡ some v = rw e at h in rw e (omega (arith, sum_by-remove d k v q))
  ]

module _ {ℓ} {V : Type ℓ} where
  length-remove-le : (d : Dict V) (k : String) → length (remove d k) ≤ length d
  unfolding remove
  length-remove-le [] k = omega arith
  length-remove-le ((j, w) ∷ d) k = ground (arith, length-remove-le d k)

  -- A key that is there takes its place with it.
  pub length-remove-lt :
      (d : Dict V) (k : String) (v : V) → get d k ≡ some v → length (remove d k) < length d
  unfolding remove get
  length-remove-lt [] k v h = cc
  length-remove-lt ((j, w) ∷ d) k v h = elim (Bool-cases (j == k)) [
    | inl e ↦ rw e (omega (arith, length-remove-le d k))
    | inr e ↦ let q : get d k ≡ some v = rw e at h in rw e (omega (arith, length-remove-lt d k v q))
  ]

pub get-empty {ℓ} : {V : Type ℓ} (k : String) → get {V = V} [] k ≡ none
unfolding get
get-empty k = refl

pub ruleset dict_laws = (get-empty, get-put, get-remove)

-- Every value that a key has.
module _ {ℓ κ} {V : Type ℓ} (P : V → Type κ) where
  abbrev pub Each : Dict V → Type (ℓ ⊔ κ)
  Each d = (k : String) (v : V) → get d k ≡ some v → P v

  given :
      (b : Bool) (v w : V) (o : Option V)
      → P v
      → (o ≡ some w → P w)
      → (if b then some v else o) ≡ some w
      → P w
  given true v w o p f e = transport (ap P (ap (λ x. or_else x v) e)) p
  given false v w o p f e = f e

  pub put-Each : (d : Dict V) (k : String) (v : V) → P v → Each d → Each (put d k v)
  put-Each d k v p h j w e = given (k == j) v w (get d j) p (h j w) (sym (get-put d k j v) ∙ e)
