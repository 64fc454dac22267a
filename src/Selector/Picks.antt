-- ===== src/Selector/Picks.antt =====
-- meta_router.py: which router the weighted round-robin picks, and what every router's current weight is
-- after the pick.
use provider_health_daemon.Base.{
  ℕ, Bool, true, false, none, some, List, [], ◌∷◌, ◌≡◌, refl, ap, sym, ◌∙◌, inl, inr, if◌then◌else◌,
  str_eq, sum_by, arith, Bool-cases, eq_iff, or_else,
}
use provider_health_daemon.Base.Dict.{Dict, put}
use provider_health_daemon.Base.Int.{ℤ, pos, ◌+ℤ◌, ◌-ℤ◌, ltb_ℤ}
use provider_health_daemon.Routers.{RouterState}
use provider_health_daemon.Selector.{weight_of}
use provider_health_daemon.Selector.Choice.{better, gain, pick_loop, pick_weighted}
use provider_health_daemon.Selector.Weights.{
  weights, Others, Distinct, Member, weight_of-put, pick_loop-other, pay-some, pick_loop-Member,
  pick_weighted-conserves,
}
use provider_health_daemon.Selector.Shares.{weight_of-pick_loop}

-- The current weight of a router with its own weight added.
abbrev pub gained : Dict ℤ → RouterState → ℤ
gained ws q = weight_of ws q.name +ℤ pos q.weight

ltb_ℤ_trans : (a b c : ℤ) → ltb_ℤ a b ≡ false → ltb_ℤ b c ≡ false → ltb_ℤ a c ≡ false
unfolding ltb_ℤ
ltb_ℤ_trans a b c h k = ground arith

ltb_ℤ_asym : (a b : ℤ) → ltb_ℤ a b ≡ true → ltb_ℤ b a ≡ false
unfolding ltb_ℤ
ltb_ℤ_asym a b h = ground arith

ltb_ℤ_irrefl : (a : ℤ) → ltb_ℤ a a ≡ false
unfolding ltb_ℤ
ltb_ℤ_irrefl a = ground arith

-- No router of the list has a larger weight.
abbrev Tops : Dict ℤ → RouterState → List RouterState → Type 0
Tops ws b rs =
    (q : RouterState) → Member q rs → ltb_ℤ (weight_of ws b.name) (weight_of ws q.name) ≡ false

-- The loop goes on with the better of the router so far and the next one.
go_on :
    (ws : Dict ℤ) (x r : RouterState) (rs : List RouterState) (b : RouterState) (c : Bool)
    → Others x.name (r ∷ rs)
    → Others r.name rs
    → ltb_ℤ (weight_of ws x.name) (weight_of ws r.name) ≡ c
    → Tops (pick_loop ws (some (if c then r else x)) rs).0 b ((if c then r else x) ∷ rs)
    → Tops (pick_loop ws (some (if c then r else x)) rs).0 b (x ∷ r ∷ rs)
go_on ws x r rs b true o n h tops q (inl e) =
    let w = (pick_loop ws (some r) rs).0 in
    let less : ltb_ℤ (weight_of w r.name) (weight_of w x.name) ≡ false =
      rw (pick_loop-other ws (some r) rs r.name n, pick_loop-other ws (some r) rs x.name o.1)
        (ltb_ℤ_asym (weight_of ws x.name) (weight_of ws r.name) h) in
    ap (λ y. ltb_ℤ (weight_of w b.name) (weight_of w y.name)) e
    ∙ ltb_ℤ_trans (weight_of w b.name) (weight_of w r.name) (weight_of w x.name) (tops r (inl refl))
        less
go_on ws x r rs b true o n h tops q (inr m) = tops q m
go_on ws x r rs b false o n h tops q (inl e) = tops q (inl e)
go_on ws x r rs b false o n h tops q (inr (inl e)) =
    let w = (pick_loop ws (some x) rs).0 in
    let less : ltb_ℤ (weight_of w x.name) (weight_of w r.name) ≡ false =
      rw (pick_loop-other ws (some x) rs r.name n, pick_loop-other ws (some x) rs x.name o.1) h in
    ap (λ y. ltb_ℤ (weight_of w b.name) (weight_of w y.name)) e
    ∙ ltb_ℤ_trans (weight_of w b.name) (weight_of w x.name) (weight_of w r.name) (tops x (inl refl))
        less
go_on ws x r rs b false o n h tops q (inr (inr m)) = tops q (inr m)

Others-either :
    (c : Bool) (x r : RouterState) (rs : List RouterState)
    → Others x.name rs
    → Others r.name rs
    → Others (if c then r else x).name rs
Others-either true x r rs o n = n
Others-either false x r rs o n = o

-- The router that the loop ends with has the largest of the weights that the loop leaves.
pick_loop-Tops :
    (ws : Dict ℤ) (x : RouterState) (rs : List RouterState) (b : RouterState)
    → Others x.name rs
    → Distinct rs
    → (pick_loop ws (some x) rs).1 ≡ some b
    → Tops (pick_loop ws (some x) rs).0 b (x ∷ rs)
unfolding pick_loop better
pick_loop-Tops ws x [] b o d e q (inr m) = elim m [ ]
pick_loop-Tops ws x [] b o d e q (inl m) =
    let same : x ≡ b = ap (λ y. or_else y x) e in
    ap (λ y. ltb_ℤ (weight_of ws b.name) (weight_of ws y.name)) (m ∙ same)
    ∙ ltb_ℤ_irrefl (weight_of ws b.name)
pick_loop-Tops ws x (r ∷ rs) b o d e q m =
    let g = gain ws r in
    let c = ltb_ℤ (weight_of g x.name) (weight_of g r.name) in
    go_on g x r rs b c o d.0 refl
      (pick_loop-Tops g (if c then r else x) rs b (Others-either c x r rs o.1 d.0) d.1 e) q m

paid_by :
    (ws : Dict ℤ) (b q : RouterState) (total : ℕ)
    → weight_of (put ws b.name (weight_of ws b.name -ℤ pos total)) q.name
      ≡ (if str_eq b.name q.name then weight_of ws q.name -ℤ pos total else weight_of ws q.name)
paid_by ws b q total = elim (Bool-cases (str_eq b.name q.name)) [
  | inl e ↦
      let same : b.name ≡ q.name = (eq_iff b.name q.name).0 e in
      weight_of-put ws b.name q.name _ ∙ rw e (ap (λ n. weight_of ws n -ℤ pos total) same)
  | inr e ↦ weight_of-put ws b.name q.name _ ∙ rw e refl
]

-- Among one or more routers of different names, one is picked whose current weight and own weight have
-- the largest sum. The current weight of each router rises by its own weight, and the one that is picked
-- then pays the sum of the weights of all; the sum of the current weights stays what it was.
pub pick_weighted_lem :
    (ws : Dict ℤ) (r : RouterState) (rs : List RouterState)
    → Distinct (r ∷ rs)
    → (b : RouterState) × ((pick_weighted ws (r ∷ rs)).1 ≡ some b)
      × Member b (r ∷ rs)
      × ((q : RouterState) → Member q (r ∷ rs) → ltb_ℤ (gained ws b) (gained ws q) ≡ false)
      × ((q : RouterState)
          → Member q (r ∷ rs)
          → weight_of (pick_weighted ws (r ∷ rs)).0 q.name ≡ (
              if str_eq b.name q.name
              then gained ws q -ℤ pos (sum_by (λ x. x.weight) (r ∷ rs))
              else gained ws q))
      × (weights (pick_weighted ws (r ∷ rs)).0 (r ∷ rs) ≡ weights ws (r ∷ rs))
unfolding pick_weighted pick_loop better
pick_weighted_lem ws r rs d =
    let g = gain ws r in
    let (b, e, m) = pick_loop-Member g r rs in
    let total = sum_by (λ x. x.weight) (r ∷ rs) in
    let p = pick_loop g (some r) rs in
    let w : (q : RouterState) → Member q (r ∷ rs) → weight_of p.0 q.name ≡ gained ws q =
      λ q k. weight_of-pick_loop ws none (r ∷ rs) q d k in
    let tops = pick_loop-Tops g r rs b d.0 d.1 e in
    (
      b,
      ap (λ x. x.1) (pay-some total p b e),
      m,
      (λ q k.
          ap (λ z. ltb_ℤ z (gained ws q)) (sym (w b m))
          ∙ ap (ltb_ℤ (weight_of p.0 b.name)) (sym (w q k))
          ∙ tops q k),
      (λ q k.
          ap (λ x. weight_of x.0 q.name) (pay-some total p b e)
          ∙ paid_by p.0 b q total
          ∙ ap (λ z. if str_eq b.name q.name then z -ℤ pos total else z) (w q k)),
      pick_weighted-conserves ws (r ∷ rs) d,
    )
