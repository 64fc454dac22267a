-- ===== src/Prober/Batches.antt =====
-- model_prober.py: which models a cycle probes.
use provider_health_daemon.Base.{
  ℕ, zero, suc, ◌+◌, ◌*◌, ◌/◌, ◌≤◌, ◌<◌, ◌≡◌, ◌⊎◌, inl, inr, refl, sym, ap, ◌∙◌, true, false, List,
  [], ◌∷◌, ◌++◌, if◌then◌else◌, leb, length, take, drop, arith, Bool-cases, leb→le, length-take-le,
}
use provider_health_daemon.Prober.{pick_batch}

-- The slices of so many cycles in which the same models are due.
pub picks {ℓ} : {A : Type ℓ} → ℕ → ℕ → List A → List A
picks zero cursor due = []
picks (suc k) cursor due = (pick_batch cursor due).1 ++ picks k (pick_batch cursor due).0 due

module _ {ℓ} {A : Type ℓ} where
  take_nil : (n : ℕ) → take {A = A} n [] ≡ []
  take_nil zero = refl
  take_nil (suc n) = refl

  drop_nil : (n : ℕ) → drop {A = A} n [] ≡ []
  drop_nil zero = refl
  drop_nil (suc n) = refl

  take-drop : (m n : ℕ) (xs : List A) → take m xs ++ take n (drop m xs) ≡ take (m + n) xs
  take-drop zero n xs = ap (λ k. take k xs) (omega arith)
  take-drop (suc m) n [] = take_nil n ∙ sym (take_nil (suc m + n))
  take-drop (suc m) n (x ∷ xs) =
      let e : suc (m + n) ≡ suc m + n = omega arith in
      ap (λ ys. x ∷ ys) (take-drop m n xs) ∙ ap (λ k. take k (x ∷ xs)) e

  drop-add : (m n : ℕ) (xs : List A) → drop n (drop m xs) ≡ drop (m + n) xs
  drop-add zero n xs = ap (λ k. drop k xs) (omega arith)
  drop-add (suc m) n [] = drop_nil n ∙ sym (drop_nil (suc m + n))
  drop-add (suc m) n (x ∷ xs) =
      let e : suc (m + n) ≡ suc m + n = omega arith in drop-add m n xs ∙ ap (λ k. drop k (x ∷ xs)) e

  take_all : (n : ℕ) (xs : List A) → length xs ≤ n → take n xs ≡ xs
  take_all zero [] h = refl
  take_all zero (x ∷ xs) h = absurd (omega arith)
  take_all (suc n) [] h = refl
  take_all (suc n) (x ∷ xs) h = ap (λ ys. x ∷ ys) (take_all n xs (omega arith))

  -- A slice that does not begin behind the end.
  pick_within :
      (c : ℕ) (due : List A)
      → 3 < length due
      → c < length due
      → pick_batch c due ≡ (c + 3, take 3 (drop c due))
  unfolding pick_batch
  pick_within c due h k =
      let a : leb (length due) 3 ≡ false = ground arith in
      let b : leb (length due) c ≡ false = ground arith in rw (a, b) refl

  pick_again :
      (c : ℕ) (due : List A) → 3 < length due → length due ≤ c → pick_batch c due ≡ pick_batch 0 due
  unfolding pick_batch
  pick_again c due h k =
      let a : leb (length due) 3 ≡ false = ground arith in
      let b : leb (length due) c ≡ true = ground arith in
      let d : leb (length due) 0 ≡ false = ground arith in rw (a, b, d) refl

  picks_within :
      (k c : ℕ) (due : List A)
      → 3 < length due
      → c + 3 * k < length due + 3
      → picks k c due ≡ take (3 * k) (drop c due)
  unfolding picks
  picks_within zero c due h b = refl
  picks_within (suc k) c due h b =
      rw
        (
          pick_within c due h (omega arith),
          picks_within k (c + 3) due h (omega arith),
          sym (drop-add c 3 due),
        )
        (take-drop 3 (3 * k) (drop c due) ∙ ap (λ n. take n (drop c due)) (omega arith))

  picks_again :
      (k c : ℕ) (due : List A) → 3 < length due → length due ≤ c → picks k c due ≡ picks k 0 due
  unfolding picks
  picks_again zero c due h b = refl
  picks_again (suc k) c due h b = rw (pick_again c due h b) refl

  -- While the same models are due, more than a batch of them, the slices of a third as many cycles,
  -- rounded up, are together all of them in their order, if the cursor is at the start or past the end.
  pub picks-cover :
      (c : ℕ) (due : List A)
      → 3 < length due
      → (c ≡ 0) ⊎ (length due ≤ c)
      → picks ((length due + 2) / 3) c due ≡ due
  picks-cover c due h (inl e) =
      let n = length due in
      rw e (
        picks_within ((n + 2) / 3) 0 due h (omega arith)
        ∙ take_all (3 * ((n + 2) / 3)) due (omega arith))
  picks-cover c due h (inr e) =
      let n = length due in
      picks_again ((n + 2) / 3) c due h e
      ∙ picks_within ((n + 2) / 3) 0 due h (omega arith)
      ∙ take_all (3 * ((n + 2) / 3)) due (omega arith)

  -- A slice has at most three models.
  length-pick_batch : (c : ℕ) (due : List A) → length (pick_batch c due).1 ≤ 3
  unfolding pick_batch
  length-pick_batch c due = elim (Bool-cases (leb (length due) 3)) [
    | inl e ↦ rw e (leb→le (length due) 3 e)
    | inr e ↦ rw e (length-take-le 3 (drop (if leb (length due) c then 0 else c) due))
  ]
