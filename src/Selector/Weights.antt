-- ===== src/Selector/Weights.antt =====
-- meta_router.py: the arithmetic of the weighted round-robin.
use provider_health_daemon.Base.{
  ℕ, ◌+◌, String, Bool, true, false, Option, none, some, List, [], ◌∷◌, ◌≡◌, refl, ap, sym, ◌∙◌,
  ◌⊎◌, inl, inr, if◌then◌else◌, str_eq, All, sum_by, arith, Bool-cases, eq_refl, or_else, eq_iff,
}
use provider_health_daemon.Base.Dict.{Dict, get, put, get-put}
use provider_health_daemon.Base.Int.{ℤ, pos, ◌+ℤ◌, ◌-ℤ◌, ltb_ℤ, int_laws, pos_part, neg_part}
use provider_health_daemon.Routers.{RouterState}
use provider_health_daemon.Selector.{weight_of}
use provider_health_daemon.Selector.Choice.{better, gain, pick_loop, pay, pick_weighted}

-- The sum of the current weights of the routers.
unfoldable pub weights : Dict ℤ → List RouterState → ℤ
weights ws [] = pos 0
weights ws (r ∷ rs) = weight_of ws r.name +ℤ weights ws rs

abbrev pub Others : String → List RouterState → Type 0
Others name = All (λ q. str_eq name q.name ≡ false)

-- No two routers have the same name.
abbrev pub Distinct : List RouterState → Type 0
Distinct [] = Unit
Distinct (r ∷ rs) = Others r.name rs × Distinct rs

-- A router of the list.
abbrev pub Member : RouterState → List RouterState → Type 0
Member b [] = ⊥
Member b (r ∷ rs) = (b ≡ r) ⊎ Member b rs

or_else_if :
    {A : Type 0} (b : Bool) (x d : A) (o : Option A)
    → or_else (if b then some x else o) d ≡ (if b then x else or_else o d)
or_else_if true x d o = refl
or_else_if false x d o = refl

pub weight_of-put :
    (ws : Dict ℤ) (k q : String) (v : ℤ)
    → weight_of (put ws k v) q ≡ (if str_eq k q then v else weight_of ws q)
unfolding weight_of
weight_of-put ws k q v = rw (get-put ws k q v) (or_else_if (str_eq k q) v (pos 0) (get ws q))

weights-put_other :
    (ws : Dict ℤ) (k : String) (v : ℤ) (rs : List RouterState)
    → Others k rs
    → weights (put ws k v) rs ≡ weights ws rs
unfolding weights
weights-put_other ws k v [] h = refl
weights-put_other ws k v (r ∷ rs) h =
    rw (weight_of-put ws k r.name v, h.0, weights-put_other ws k v rs h.1) refl

pub weight_of-gain :
    (ws : Dict ℤ) (r : RouterState)
    → weight_of (gain ws r) r.name ≡ weight_of ws r.name +ℤ pos r.weight
unfolding gain
weight_of-gain ws r = rw (weight_of-put ws r.name r.name _, eq_refl r.name) refl

pub pick_loop-other :
    (ws : Dict ℤ) (best : Option RouterState) (rs : List RouterState) (name : String)
    → Others name rs
    → weight_of (pick_loop ws best rs).0 name ≡ weight_of ws name
unfolding pick_loop gain
pick_loop-other ws best [] name h = refl
pick_loop-other ws best (r ∷ rs) name h =
    pick_loop-other (gain ws r) _ rs name h.1
    ∙ weight_of-put ws r.name name _
    ∙ ground (arith, eq_iff r.name name, eq_iff name r.name, h.0)

add_swap : (a w b t : ℤ) → (a +ℤ w) +ℤ (b +ℤ t) ≡ (a +ℤ b) +ℤ (w +ℤ t)
add_swap a w b t = omega int_laws

pos-add : (m n : ℕ) → pos m +ℤ pos n ≡ pos (m + n)
pos-add m n = omega int_laws

-- The loop gives every router its weight.
weights-pick_loop :
    (ws : Dict ℤ) (best : Option RouterState) (rs : List RouterState)
    → Distinct rs
    → weights (pick_loop ws best rs).0 rs ≡ weights ws rs +ℤ pos (sum_by (λ r. r.weight) rs)
unfolding pick_loop weights sum_by
weights-pick_loop ws best [] h = omega int_laws
weights-pick_loop ws best (r ∷ rs) h =
    let own =
      pick_loop-other (gain ws r) (some (better (gain ws r) best r)) rs r.name h.0
      ∙ weight_of-gain ws r in
    let rest =
      weights-pick_loop (gain ws r) (some (better (gain ws r) best r)) rs h.1
      ∙ ap (λ z. z +ℤ pos (sum_by (λ r. r.weight) rs)) (weights-put_other ws r.name _ rs h.0) in
    rw (own, rest, sym (pos-add r.weight (sum_by (λ r. r.weight) rs))) (add_swap _ _ _ _)

pub Others-apart :
    (name : String) (b : RouterState) (rs : List RouterState)
    → Others name rs
    → Member b rs
    → str_eq b.name name ≡ false
Others-apart name b [] h m = elim m [ ]
Others-apart name b (r ∷ rs) h (inl e) =
    ap (λ q. str_eq q.name name) e ∙ ground (arith, eq_iff name r.name, eq_iff r.name name, h.0)
Others-apart name b (r ∷ rs) h (inr m) = Others-apart name b rs h.1 m

weights-put_first :
    (ws : Dict ℤ) (r : RouterState) (total : ℕ) (rs : List RouterState)
    → Others r.name rs
    → weights (put ws r.name (weight_of ws r.name -ℤ pos total)) (r ∷ rs) +ℤ pos total
      ≡ weights ws (r ∷ rs)
unfolding weights
weights-put_first ws r total rs h =
    rw
      (
        weight_of-put ws r.name r.name (weight_of ws r.name -ℤ pos total),
        eq_refl r.name,
        weights-put_other ws r.name (weight_of ws r.name -ℤ pos total) rs h,
      )
      (omega int_laws)

-- A payment of one router of the list is one of the sum.
weights-put-Member :
    (ws : Dict ℤ) (b : RouterState) (total : ℕ) (rs : List RouterState)
    → Distinct rs
    → Member b rs
    → weights (put ws b.name (weight_of ws b.name -ℤ pos total)) rs +ℤ pos total ≡ weights ws rs
unfolding weights
weights-put-Member ws b total [] h m = elim m [ ]
weights-put-Member ws b total (r ∷ rs) h (inl e) =
    ap (λ q. weights (put ws q.name (weight_of ws q.name -ℤ pos total)) (r ∷ rs) +ℤ pos total) e
    ∙ weights-put_first ws r total rs h.0
weights-put-Member ws b total (r ∷ rs) h (inr m) =
    let rest = weights-put-Member ws b total rs h.1 m in
    rw
      (
        weight_of-put ws b.name r.name (weight_of ws b.name -ℤ pos total),
        Others-apart r.name b rs h.0 m,
        sym rest,
      )
      (omega int_laws)

later :
    (ws : Dict ℤ) (x r : RouterState) (rs : List RouterState) (b : RouterState)
    → (b ≡ better ws (some x) r) ⊎ Member b rs
    → (b ≡ x) ⊎ Member b (r ∷ rs)
unfolding better
later ws x r rs b (inr m) = inr (inr m)
later ws x r rs b (inl e) = elim (Bool-cases (ltb_ℤ (weight_of ws x.name) (weight_of ws r.name))) [
  | inl c ↦ inr (inl (e ∙ ap (λ d. if d then r else x) c))
  | inr c ↦ inl (e ∙ ap (λ d. if d then r else x) c)
]

-- The loop ends with the router that it began with or one of the list.
pub pick_loop-Member :
    (ws : Dict ℤ) (x : RouterState) (rs : List RouterState)
    → (b : RouterState) × ((pick_loop ws (some x) rs).1 ≡ some b) × ((b ≡ x) ⊎ Member b rs)
unfolding pick_loop
pick_loop-Member ws x [] = (x, refl, inl refl)
pick_loop-Member ws x (r ∷ rs) =
    let (b, e, m) = pick_loop-Member (gain ws r) (better (gain ws r) (some x) r) rs in
    (b, e, later (gain ws r) x r rs b m)

pub pay-some :
    (total : ℕ) (p : Dict ℤ × Option RouterState) (b : RouterState)
    → p.1 ≡ some b
    → pay total p ≡ (put p.0 b.name (weight_of p.0 b.name -ℤ pos total), some b)
unfolding pay
pay-some total p b e = ap (λ o. pay total (p.0, o)) e

-- If there is a router, one of those offered is picked.
pub pick_weighted-Member :
    (ws : Dict ℤ) (r : RouterState) (rs : List RouterState)
    → (b : RouterState) × ((pick_weighted ws (r ∷ rs)).1 ≡ some b) × Member b (r ∷ rs)
unfolding pick_weighted pick_loop better
pick_weighted-Member ws r rs =
    let (b, e, m) = pick_loop-Member (gain ws r) r rs in
    (b, ap (λ p. p.1) (pay-some _ (pick_loop (gain ws r) (some r) rs) b e), m)

cancel : (x w v t : ℤ) → x +ℤ t ≡ w → w ≡ v +ℤ t → x ≡ v
cancel x w v t h k =
    let parts : pos_part (x +ℤ t) + neg_part (v +ℤ t) ≡ pos_part (v +ℤ t) + neg_part (x +ℤ t) =
      rw (h ∙ k) refl in
    omega int_laws

-- A pick among routers of different names leaves the sum of their current weights as it was.
pub pick_weighted-conserves :
    (ws : Dict ℤ) (rs : List RouterState)
    → Distinct rs
    → weights (pick_weighted ws rs).0 rs ≡ weights ws rs
unfolding pick_weighted pick_loop better
pick_weighted-conserves ws [] h = refl
pick_weighted-conserves ws (r ∷ rs) h =
    let (b, e, m) = pick_loop-Member (gain ws r) r rs in
    let total = sum_by (λ q. q.weight) (r ∷ rs) in
    let p = pick_loop (gain ws r) (some r) rs in
    ap (λ q. weights q.0 (r ∷ rs)) (pay-some total p b e)
    ∙ cancel _ _ _ (pos total) (weights-put-Member p.0 b total (r ∷ rs) h m)
        (weights-pick_loop ws none (r ∷ rs) h)
