-- ===== src/SmartRouter/Pool/Catalog/Limits.antt =====
-- smart_router.py: how many models `_filter_catalog_models` lets in.
use mathlib.Core.Path.{subst}
use provider_health_daemon.Base.{
  ℕ, suc, ◌+◌, ◌≤◌, ◌≡◌, refl, sym, ap, String, false, Option, none, some, List, [], ◌∷◌, ◌++◌, map,
  if◌then◌else◌, arith, Bool-cases, inl, inr, All, take, length, length-take-le, sum_by,
  sum_by-append, sum_by-take-le, before, str_eq, eq_iff, or_else,
}
use provider_health_daemon.Base.Dict.{Dict, get, put, get-put}
use provider_health_daemon.Base.Sorting.{sort, sum_by-sort, All-sort}
use provider_health_daemon.SmartRouter.Tables.{provider_priority}
use provider_health_daemon.SmartRouter.Pool.{Pool, Connection, get_connection_counts}
use provider_health_daemon.SmartRouter.Pool.Catalog.{
  Item, Groups, group, catalog_verdict, place_item, group_items, is_larger, limit_of, contribution,
  contributions, has_priority, filter_catalog_models,
}

-- One for a model of the provider.
abbrev is_of : String → String → ℕ
is_of q m = if str_eq (before b'/' m) q then 1 else 0

-- How many of the models are the provider's.
abbrev pub models_of : String → List String → ℕ
models_of q = sum_by (is_of q)

count_map :
    (q : String) (xs : List (ℕ × String))
    → sum_by (is_of q) (map (λ m. m.1) xs) ≡ sum_by (λ m. is_of q m.1) xs
unfolding sum_by
count_map q [] = refl
count_map q (x ∷ xs) = ap (λ n. is_of q x.1 + n) (count_map q xs)

-- Every model of a group is of the group's provider.
abbrev OfProvider : String → ℕ × String → Type 0
OfProvider k m = before b'/' m.1 ≡ k

-- The groups have the providers of their models as keys, each once.
abbrev AreGroups : Groups → Type 0
AreGroups [] = Unit
AreGroups ((k, ms) ∷ g) = All (OfProvider k) ms × (get g k ≡ none) × AreGroups g

All-snoc :
    (k : String) (ms : List (ℕ × String)) (m : ℕ × String)
    → All (OfProvider k) ms
    → OfProvider k m
    → All (OfProvider k) (ms ++ m ∷ [])
All-snoc k [] m a h = (h, tt)
All-snoc k (x ∷ ms) m a h = (a.0, All-snoc k ms m a.1 h)

get-OfProvider : (g : Groups) (p : String) → AreGroups g → All (OfProvider p) (or_else (get g p) [])
unfolding get
get-OfProvider [] p a = tt
get-OfProvider ((k, ms) ∷ g) p a = elim (Bool-cases (str_eq k p)) [
  | inl e ↦ rw e (subst (λ j. All (OfProvider j) ms) ((eq_iff k p).0 e) a.0)
  | inr e ↦ rw e (get-OfProvider g p a.2)
]

put-AreGroups :
    (g : Groups) (p : String) (v : List (ℕ × String))
    → AreGroups g
    → All (OfProvider p) v
    → AreGroups (put g p v)
unfolding put get
put-AreGroups [] p v a h = (h, refl, tt)
put-AreGroups ((k, ms) ∷ g) p v a h = elim (Bool-cases (str_eq k p)) [
  | inl e ↦ rw e (subst (λ j. All (OfProvider j) v) (sym ((eq_iff k p).0 e)) h, a.1, a.2)
  | inr e ↦
      let n : str_eq p k ≡ false = ground (arith, eq_iff k p, eq_iff p k) in
      rw e (a.0, rw (get-put g p k v, n) a.1, put-AreGroups g p v a.2 h)
]

group-AreGroups :
    (g : Groups) (m : ℕ × String) → AreGroups g → AreGroups (group g (before b'/' m.1) m)
unfolding group
group-AreGroups g m a =
    let p = before b'/' m.1 in
    put-AreGroups g p (or_else (get g p) [] ++ m ∷ []) a
      (All-snoc p (or_else (get g p) []) m (get-OfProvider g p a) refl)

module _ (now : ℕ) (connections : Option (Dict Connection)) where
  place-AreGroups :
      (p : Pool) (g : Groups) (c : ℕ) (id : Option String)
      → AreGroups g
      → AreGroups (place_item now connections p g c id).1
  place-AreGroups p g c none a = a
  place-AreGroups p g c (some m) a = elim (Bool-cases (catalog_verdict now connections p m).1) [
    | inl e ↦ rw e (group-AreGroups g (c, m) a)
    | inr e ↦ rw e a
  ]

  items-AreGroups :
      (p : Pool) (g : Groups) (items : List Item)
      → AreGroups g
      → AreGroups (group_items now connections p g items).1
  unfolding group_items
  items-AreGroups p g [] a = a
  items-AreGroups p g (it ∷ items) a =
      let r = place_item now connections p g it.context it.id in
      items-AreGroups r.0 r.1 items (place-AreGroups p g it.context it.id a)

abbrev count_pairs : String → List (ℕ × String) → ℕ
count_pairs q = sum_by (λ m. is_of q m.1)

count_none :
    (k q : String) (xs : List (ℕ × String))
    → str_eq k q ≡ false
    → All (OfProvider k) xs
    → count_pairs q xs ≡ 0
unfolding sum_by
count_none k q [] n a = refl
count_none k q (x ∷ xs) n a = rw (a.0, n) (omega (arith, count_none k q xs n a.1))

count-le-length : (q : String) (xs : List (ℕ × String)) → count_pairs q xs ≤ length xs
unfolding sum_by
count-le-length q [] = omega arith
count-le-length q (x ∷ xs) = ground (arith, count-le-length q xs)

count_relabel :
    (q : String) (n : ℕ) (xs : List (ℕ × String))
    → count_pairs q (map (λ m. (n, m.1)) xs) ≡ count_pairs q xs
unfolding sum_by
count_relabel q n [] = refl
count_relabel q n (x ∷ xs) = ap (λ t. is_of q x.1 + t) (count_relabel q n xs)

module _ (counts : Dict ℕ) (q : String) where
  contribution-le :
      (k : String) (ms : List (ℕ × String))
      → count_pairs q (contribution counts k ms) ≤ limit_of counts k
  unfolding contribution
  contribution-le k ms =
      let kept = take (limit_of counts k) (sort is_larger ms) in
      omega (
        arith,
        count_relabel q (or_else (get provider_priority k) 50) kept,
        count-le-length q kept,
        length-take-le (limit_of counts k) (sort is_larger ms),
      )

  contribution-none :
      (k : String) (ms : List (ℕ × String))
      → str_eq k q ≡ false
      → All (OfProvider k) ms
      → count_pairs q (contribution counts k ms) ≡ 0
  unfolding contribution
  contribution-none k ms n a =
      let kept = take (limit_of counts k) (sort is_larger ms) in
      omega (
        arith,
        count_relabel q (or_else (get provider_priority k) 50) kept,
        sum_by-take-le (λ (m : ℕ × String). is_of q m.1) (limit_of counts k) (sort is_larger ms),
        count_none k q (sort is_larger ms) n (All-sort is_larger (OfProvider k) ms a),
      )

  contributions-none :
      (g : Groups) → AreGroups g → get g q ≡ none → count_pairs q (contributions counts g) ≡ 0
  unfolding contributions sum_by get
  contributions-none [] a e = refl
  contributions-none ((k, ms) ∷ g) a e = elim (Bool-cases (str_eq k q)) [
    | inl t ↦ let bad : some ms ≡ none = rw t at e in cc
    | inr f ↦
        let rest : get g q ≡ none = rw f at e in
        omega (
          arith,
          sum_by-append (λ (m : ℕ × String). is_of q m.1) (contribution counts k ms)
              (contributions counts g),
          contribution-none k ms f a.0,
          contributions-none g a.2 rest,
        )
  ]

  contributions-le :
      (g : Groups) → AreGroups g → count_pairs q (contributions counts g) ≤ limit_of counts q
  unfolding contributions sum_by
  contributions-le [] a = omega arith
  contributions-le ((k, ms) ∷ g) a = elim (Bool-cases (str_eq k q)) [
    | inl t ↦
        let same : k ≡ q = (eq_iff k q).0 t in
        let bound : count_pairs q (contribution counts k ms) ≤ limit_of counts q =
          subst (λ j. count_pairs q (contribution counts k ms) ≤ limit_of counts j) same
            (contribution-le k ms) in
        omega (
          arith,
          sum_by-append (λ (m : ℕ × String). is_of q m.1) (contribution counts k ms)
              (contributions counts g),
          contributions-none g a.2 (subst (λ j. get g j ≡ none) same a.1),
        )
    | inr f ↦ omega (
      arith,
      sum_by-append (λ (m : ℕ × String). is_of q m.1) (contribution counts k ms)
          (contributions counts g),
      contribution-none k ms f a.0,
      contributions-le g a.2,
    )
  ]

length-map {ℓ κ} :
    {A : Type ℓ} {B : Type κ} (f : A → B) (xs : List A) → length (map f xs) ≡ length xs
length-map f [] = refl
length-map f (x ∷ xs) = ap (λ n. suc n) (length-map f xs)

-- The pool that a catalog gives has at most 500 models, and of each provider at most 30, with five more
-- for each account after the first, whatever the catalog lists.
pub filter_catalog_models-le :
    (now : ℕ) (connections : Option (Dict Connection)) (p : Pool) (items : List Item) (q : String)
    → (length (filter_catalog_models now connections p items).1 ≤ 500)
      × (models_of q (filter_catalog_models now connections p items).1
          ≤ limit_of
              (get_connection_counts now connections (group_items now connections p [] items).0).1
              q)
unfolding filter_catalog_models
filter_catalog_models-le now connections p items q =
    let r = group_items now connections p [] items in
    let counts = (get_connection_counts now connections r.0).1 in
    let all = contributions counts r.1 in
    (
      omega (
        arith,
        length-map (λ (m : ℕ × String). m.1) (take 500 (sort has_priority all)),
        length-take-le 500 (sort has_priority all),
      ),
      omega (
        arith,
        count_map q (take 500 (sort has_priority all)),
        sum_by-take-le (λ (m : ℕ × String). is_of q m.1) 500 (sort has_priority all),
        sum_by-sort has_priority (λ (m : ℕ × String). is_of q m.1) all,
        contributions-le counts q r.1 (items-AreGroups now connections p [] items tt),
      ),
    )
