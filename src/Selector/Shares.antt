-- ===== src/Selector/Shares.antt =====
-- meta_router.py: how often each router is picked in a row of picks.
use provider_health_daemon.Base.{
  ℕ, zero, suc, ◌+◌, ◌*◌, String, Bool, true, false, Option, none, some, List, [], ◌∷◌, ◌≡◌, refl,
  ap, sym, ◌∙◌, inl, inr, if◌then◌else◌, str_eq, sum_by, arith, eq_iff,
}
use provider_health_daemon.Base.Dict.{Dict}
use provider_health_daemon.Base.Int.{ℤ, pos, ◌+ℤ◌, ◌-ℤ◌, int_laws, pos_part, neg_part}
use provider_health_daemon.Routers.{RouterState}
use provider_health_daemon.Selector.{weight_of}
use provider_health_daemon.Selector.Choice.{better, gain, pick_loop, pay, pick_weighted}
use provider_health_daemon.Selector.Weights.{
  Distinct, Member, Others-apart, weight_of-put, weight_of-gain, pick_loop-other, pay-some,
  pick_loop-Member,
}

-- The current weights after n picks among the same routers.
unfoldable pub rounds : ℕ → Dict ℤ → List RouterState → Dict ℤ
rounds zero ws rs = ws
rounds (suc n) ws rs = rounds n (pick_weighted ws rs).0 rs

unfoldable pub is_pick : Option RouterState → String → ℕ
is_pick none name = 0
is_pick (some b) name = if str_eq b.name name then 1 else 0

-- How often the router of the name is picked in n picks.
unfoldable pub picks : ℕ → Dict ℤ → List RouterState → String → ℕ
picks zero ws rs name = 0
picks (suc n) ws rs name =
    is_pick (pick_weighted ws rs).1 name + picks n (pick_weighted ws rs).0 rs name

pub weight_of-pick_loop :
    (ws : Dict ℤ) (best : Option RouterState) (rs : List RouterState) (r : RouterState)
    → Distinct rs
    → Member r rs
    → weight_of (pick_loop ws best rs).0 r.name ≡ weight_of ws r.name +ℤ pos r.weight
unfolding pick_loop gain
weight_of-pick_loop ws best [] r d m = elim m [ ]
weight_of-pick_loop ws best (q ∷ rs) r d (inl e) =
    ap (λ x. weight_of (pick_loop ws best (q ∷ rs)).0 x.name) e
    ∙ pick_loop-other (gain ws q) _ rs q.name d.0
    ∙ weight_of-gain ws q
    ∙ ap (λ x. weight_of ws x.name +ℤ pos x.weight) (sym e)
weight_of-pick_loop ws best (q ∷ rs) r d (inr m) =
    let apart = Others-apart q.name r rs d.0 m in
    let apart' : str_eq q.name r.name ≡ false =
      ground (arith, eq_iff q.name r.name, eq_iff r.name q.name) in
    weight_of-pick_loop (gain ws q) _ rs r d.1 m
    ∙ ap (λ z. z +ℤ pos r.weight) (weight_of-put ws q.name r.name _ ∙ rw apart' refl)

paid :
    (c : Bool) (w v : ℤ) (total : ℕ)
    → (c ≡ true → w ≡ v)
    → (if c then w -ℤ pos total else v) +ℤ pos (total * (if c then 1 else 0)) ≡ v
paid true w v total h = rw (h refl) (omega int_laws)
paid false w v total h = omega int_laws

-- What a payment leaves of the weight of any name.
weight_of-pay :
    (total : ℕ) (p : Dict ℤ × Option RouterState) (b : RouterState) (name : String)
    → p.1 ≡ some b
    → weight_of (pay total p).0 name +ℤ pos (total * is_pick (pay total p).1 name)
      ≡ weight_of p.0 name
unfolding is_pick
weight_of-pay total p b name e =
    ap (λ q. weight_of q.0 name +ℤ pos (total * is_pick q.1 name)) (pay-some total p b e)
    ∙ ap (λ z. z +ℤ pos (total * is_pick (some b) name)) (weight_of-put p.0 b.name name _)
    ∙ paid (str_eq b.name name) (weight_of p.0 b.name) (weight_of p.0 name) total
        (λ h. ap (weight_of p.0) ((eq_iff b.name name).0 h))

-- One pick: the weight of a router after it and what it paid are the weight before it and the router's own weight.
pick-account :
    (ws : Dict ℤ) (rs : List RouterState) (r : RouterState)
    → Distinct rs
    → Member r rs
    → weight_of (pick_weighted ws rs).0 r.name
        +ℤ pos (sum_by (λ q. q.weight) rs * is_pick (pick_weighted ws rs).1 r.name)
      ≡ weight_of ws r.name +ℤ pos r.weight
unfolding pick_weighted pick_loop better
pick-account ws [] r d m = elim m [ ]
pick-account ws (q ∷ rs) r d m =
    let (b, e, k) = pick_loop-Member (gain ws q) q rs in
    weight_of-pay (sum_by (λ q. q.weight) (q ∷ rs)) (pick_loop (gain ws q) (some q) rs) b r.name e
    ∙ weight_of-pick_loop ws none (q ∷ rs) r d m

chain :
    (x w v : ℤ) (a b c d : ℕ)
    → x +ℤ pos b ≡ w +ℤ pos c
    → w +ℤ pos a ≡ v +ℤ pos d
    → x +ℤ pos (a + b) ≡ v +ℤ pos (d + c)
chain x w v a b c d h k =
    let first : pos_part (x +ℤ pos b) + neg_part (w +ℤ pos c)
        ≡ pos_part (w +ℤ pos c) + neg_part (x +ℤ pos b) =
      rw h refl in
    let second : pos_part (w +ℤ pos a) + neg_part (v +ℤ pos d)
        ≡ pos_part (v +ℤ pos d) + neg_part (w +ℤ pos a) =
      rw k refl in
    omega int_laws

-- In any number of picks among the same routers, which have different names, the current weight of
-- each router rises by its own weight for every pick, and falls by the sum of the weights for every
-- pick of itself.
pub picks-account :
    (n : ℕ) (ws : Dict ℤ) (rs : List RouterState) (r : RouterState)
    → Distinct rs
    → Member r rs
    → weight_of (rounds n ws rs) r.name +ℤ pos (sum_by (λ q. q.weight) rs * picks n ws rs r.name)
      ≡ weight_of ws r.name +ℤ pos (n * r.weight)
unfolding rounds picks
picks-account zero ws rs r d m =
    let none_yet : sum_by (λ q. q.weight) rs * 0 ≡ 0 * r.weight = omega arith in
    ap (λ k. weight_of ws r.name +ℤ pos k) none_yet
picks-account (suc n) ws rs r d m =
    let total = sum_by (λ q. q.weight) rs in
    let now = is_pick (pick_weighted ws rs).1 r.name in
    let rest = picks n (pick_weighted ws rs).0 rs r.name in
    let split : total * (now + rest) ≡ total * now + total * rest = grind arith in
    let more : suc n * r.weight ≡ r.weight + n * r.weight = grind arith in
    ap (λ k. weight_of (rounds n (pick_weighted ws rs).0 rs) r.name +ℤ pos k) split
    ∙ chain _ _ _ (total * now) (total * rest) (n * r.weight) r.weight
        (picks-account n (pick_weighted ws rs).0 rs r d m) (pick-account ws rs r d m)
    ∙ ap (λ k. weight_of ws r.name +ℤ pos k) (sym more)
