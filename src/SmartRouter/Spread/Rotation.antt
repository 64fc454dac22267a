-- ===== src/SmartRouter/Spread/Rotation.antt =====
-- smart_router.py: which candidate `_spread_select` takes, and what the next selection takes.
use provider_health_daemon.Base.{
  map, elem, eq_refl, All-filter, String, refl, ℕ, ◌+◌, ◌≤◌, ◌<◌, ◌≡◌, ◌≢◌, ◌⊎◌, inl, inr, refl,
  sym, Bool, true, false, not, List, [], ◌∷◌, ltb, leb, filter, any, All, All-imp, All-filter_test,
  All-filter_inv, arith, str_eq, eq_iff, Bool-cases, Option-cases,
}
use mathlib.Core.Path.{subst}
use provider_health_daemon.Base.Dict.{Dict, get, put, get-put, Each}
use provider_health_daemon.Base.Sorting.{sort, IsOrder, All-sort, All-sort_inv, sort-least}
use provider_health_daemon.SmartRouter.Rank.{Ranked}
use provider_health_daemon.SmartRouter.Spread.{
  in_band, band, used_today, last_use, goes_first, head_or, spread_choice, spread_select,
}

goes_first-IsOrder : (usage last : Dict ℕ) → IsOrder (goes_first usage last)
unfolding goes_first
goes_first-IsOrder usage last = record {
  asym = λ x y h. ground arith;
  trans = λ x y z h k. ground arith;
}

goes_first_irrefl : (usage last : Dict ℕ) (x : Ranked) → goes_first usage last x x ≡ false
unfolding goes_first
goes_first_irrefl usage last x = ground arith

head-least :
    (usage last : Dict ℕ) (best : Ranked) (xs sorted : List Ranked)
    → sort (goes_first usage last) xs ≡ sorted
    → All (λ y. goes_first usage last y (head_or best sorted) ≡ false) xs
head-least usage last best xs [] e =
    All-sort_inv (goes_first usage last) (λ y. goes_first usage last y best ≡ false) xs
      (subst (All (λ y. goes_first usage last y best ≡ false)) (sym e) tt)
head-least usage last best xs (x ∷ ys) e =
    sort-least (goes_first usage last) (goes_first-IsOrder usage last) xs ys x
      (goes_first_irrefl usage last x) e

-- No candidate goes before the choice.
spread_choice-least :
    (usage last : Dict ℕ) (best : Ranked) (rest : List Ranked)
    → All
        (λ y. goes_first usage last y (spread_choice usage last best rest) ≡ false)
        (band best rest)
unfolding spread_choice
spread_choice-least usage last best rest = head-least usage last best (band best rest) _ refl

All-head_or {κ} :
    (P : Ranked → Type κ) (best : Ranked) (xs : List Ranked)
    → P best
    → All P xs
    → P (head_or best xs)
All-head_or P best [] p a = p
All-head_or P best (x ∷ xs) p a = a.0

band_lem :
    (best : Ranked) (rest : List Ranked) → band best rest ≡ best ∷ filter (in_band best.total) rest
unfolding band
band_lem best rest = let e : leb best.total (best.total + 300) ≡ true = ground arith in rw e refl

-- Where another stands to the choice: it is out of the band, or it was used today and the choice was
-- not, or else it was selected no longer ago.
abbrev pub Behind : Dict ℕ → Dict ℕ → Ranked → Ranked → Ranked → Type 0
Behind usage last best chosen y =
    (best.total + 300 < y.total)
    ⊎ ((used_today usage chosen < used_today usage y)
        ⊎ ((used_today usage chosen ≡ used_today usage y)
            × (last_use last chosen ≤ last_use last y)))

not_first :
    (usage last : Dict ℕ) (best x y : Ranked)
    → goes_first usage last y x ≡ false
    → Behind usage last best x y
unfolding goes_first
not_first usage last best x y h =
    elim (Bool-cases (ltb (used_today usage x) (used_today usage y))) [
      | inl e ↦ inr (inl (ground arith))
      | inr e ↦ inr (inr (ground arith))
    ]

out_of_band :
    (usage last : Dict ℕ) (best x y : Ranked)
    → in_band best.total y ≡ false
    → Behind usage last best x y
unfolding in_band
out_of_band usage last best x y h = inl (ground arith)

in_band-le : (best x : Ranked) → in_band best.total x ≡ true → x.total ≤ best.total + 300
unfolding in_band
in_band-le best x h = ground arith

best-in_band : (best : Ranked) → in_band best.total best ≡ true
unfolding in_band
best-in_band best = ground arith

spread_choice-All {κ} :
    (P : Ranked → Type κ) (usage last : Dict ℕ) (best : Ranked) (rest : List Ranked)
    → All P (best ∷ filter (in_band best.total) rest)
    → P (spread_choice usage last best rest)
unfolding spread_choice
spread_choice-All P usage last best rest a =
    All-head_or P best (sort (goes_first usage last) (band best rest)) a.0 (
      All-sort (goes_first usage last) P (band best rest)
        (subst (All P) (sym (band_lem best rest)) a))

abbrev pub ids_of : List Ranked → List String
ids_of = map (λ (x : Ranked). x.model_id)

All-elem_ids : (xs : List Ranked) → All (λ x. elem x.model_id (ids_of xs) ≡ true) xs
unfolding elem
All-elem_ids [] = tt
All-elem_ids (x ∷ xs) =
    (rw (eq_refl x.model_id) refl, All-imp (λ y h. ground (arith, h)) xs (All-elem_ids xs))

-- The choice is one of the ranked models, at most 30 points worse than the best, and every other ranked
-- model is either worse than that, or its provider was used today and the chosen one was not, or, where
-- that is the same for both, its provider was not selected longer ago than the chosen one.
pub spread_choice-Behind :
    (usage last : Dict ℕ) (best : Ranked) (rest : List Ranked)
    → (elem (spread_choice usage last best rest).model_id (ids_of (best ∷ rest)) ≡ true)
      × ((spread_choice usage last best rest).total ≤ best.total + 300)
      × All (Behind usage last best (spread_choice usage last best rest)) (best ∷ rest)
spread_choice-Behind usage last best rest =
    let x = spread_choice usage last best rest in
    let least : All (λ y. goes_first usage last y x ≡ false)
        (best ∷ filter (in_band best.total) rest) =
      subst (All (λ y. goes_first usage last y x ≡ false)) (band_lem best rest)
        (spread_choice-least usage last best rest) in
    let members = All-elem_ids (best ∷ rest) in
    (
      spread_choice-All (λ y. elem y.model_id (ids_of (best ∷ rest)) ≡ true) usage last best rest
          (
            members.0,
            All-filter (λ y. elem y.model_id (ids_of (best ∷ rest)) ≡ true) (in_band best.total)
                rest members.1,
          ),
      in_band-le best x (
          spread_choice-All (λ y. in_band best.total y ≡ true) usage last best rest
            (best-in_band best, All-filter_test (in_band best.total) rest)),
      (
        not_first usage last best x best least.0,
        All-filter_inv (in_band best.total) (λ y _ k. not_first usage last best x y k)
            (λ y k. out_of_band usage last best x y k) rest least.1,
      ),
    )

any-not :
    (p : Ranked → Bool) (xs : List Ranked)
    → All (λ x. p x ≡ true) xs
    → any (λ x. not (p x)) xs ≡ false
unfolding any
any-not p [] a = refl
any-not p (x ∷ xs) a = rw (a.0) (any-not p xs a.1)

-- A time of selection in the past, also that of a provider that was never selected.
last_use-lt :
    (now : ℕ) (last : Dict ℕ) (y : Ranked)
    → 0 < now
    → Each (λ t. t < now) last
    → last_use last y < now
unfolding last_use
last_use-lt now last y h k = elim (Option-cases (get last y.provider)) [
  | inl e ↦ rw e h
  | inr (t, e) ↦ rw e (k y.provider t e)
]

same_provider :
    (now : ℕ) (last : Dict ℕ) (x y z : Ranked)
    → 0 < now
    → Each (λ t. t < now) last
    → z.provider ≡ x.provider
    → goes_first [] (put last x.provider now) y z ≡ false
    → str_eq y.provider x.provider ≡ true
unfolding goes_first last_use used_today get
same_provider now last x y z h k e g = ground (
  arith,
  last_use-lt now last y h k,
  get-put last x.provider y.provider now,
  get-put last x.provider z.provider now,
  eq_iff y.provider x.provider,
  eq_iff x.provider y.provider,
  eq_iff x.provider z.provider,
)

-- Two selections in a row do not take the same provider where the band has another one and no usage
-- is counted, if the first was at a time after all the times that are noted.
pub spread_select-rotates :
    (now later : ℕ) (last : Dict ℕ) (best : Ranked) (rest : List Ranked)
    → 0 < now
    → Each (λ t. t < now) last
    → any
        (λ y. not (str_eq y.provider (spread_select now [] last best rest).1.provider))
        (band best rest)
      ≡ true
    → (spread_select later [] (spread_select now [] last best rest).0 best rest).1.provider
      ≢ (spread_select now [] last best rest).1.provider
unfolding spread_select
spread_select-rotates now later last best rest h k others e =
    let x = spread_choice [] last best rest in
    let z = spread_choice [] (put last x.provider now) best rest in
    let same : All (λ y. str_eq y.provider x.provider ≡ true) (band best rest) =
      All-imp (λ y. same_provider now last x y z h k e) (band best rest)
        (spread_choice-least [] (put last x.provider now) best rest) in
    let none_other = any-not (λ y. str_eq y.provider x.provider) (band best rest) same in cc
