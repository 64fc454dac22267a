-- ===== src/Alerts/Changes.antt =====
-- alerter.py: which transitions `check_transitions` returns.
use provider_health_daemon.Base.{
  String, Bool, false, Option, none, some, List, [], ◌∷◌, ◌++◌, ◌≡◌, ◌≢◌, refl, ap, sym, ◌∙◌,
  str_eq, filter, arith, ◌⊎◌, Bool-cases, inl, inr, eq_refl, eq_iff,
}
use provider_health_daemon.Base.Dict.{Dict, get, put, get-put}
use provider_health_daemon.Alerts.{
  Alerter, Look, Transition, current_status, change, compare_all, check_transitions,
}

-- No name stands twice.
abbrev pub Unique : Dict Look → Type 0
Unique [] = Unit
Unique ((k, e) ∷ d) = (get d k ≡ none) × Unique d

unfoldable pub of_provider : String → List Transition → List Transition
of_provider q = filter (λ t. str_eq t.provider q)

-- The transition of a provider that is there.
unfoldable pub change_of : Option String → String → Option Look → List Transition
change_of before q none = []
change_of before q (some entry) = change before q entry

filter-append :
    (p : Transition → Bool) (xs ys : List Transition)
    → filter p (xs ++ ys) ≡ filter p xs ++ filter p ys
unfolding filter
filter-append p [] ys = refl
filter-append p (x ∷ xs) ys = ground (arith, filter-append p xs ys)

get-put_if :
    (d : Dict String) (k q : String) (v : String) → str_eq k q ≡ false → get (put d k v) q ≡ get d q
get-put_if d k q v h = rw (get-put d k q v, h) refl

of_provider-append :
    (q : String) (xs ys : List Transition)
    → of_provider q (xs ++ ys) ≡ of_provider q xs ++ of_provider q ys
unfolding of_provider
of_provider-append q xs ys = filter-append (λ t. str_eq t.provider q) xs ys

List-cases :
    (xs : Dict String)
    → (xs ≡ []) ⊎ ((x : String × String) × (rest : Dict String) × (xs ≡ x ∷ rest))
List-cases [] = inl refl
List-cases (x ∷ xs) = inr (x, xs, refl)

append_nil : (xs : List Transition) → xs ++ [] ≡ xs
append_nil [] = refl
append_nil (x ∷ xs) = ap (◌∷◌ x) (append_nil xs)

of_provider-change_self :
    (before : Option String) (q : String) (entry : Look)
    → of_provider q (change before q entry) ≡ change before q entry
unfolding of_provider change filter
of_provider-change_self before q entry = ground (arith, eq_refl q)

of_provider-change_other :
    (before : Option String) (name q : String) (entry : Look)
    → str_eq name q ≡ false
    → of_provider q (change before name entry) ≡ []
unfolding of_provider change filter
of_provider-change_other before name q entry h = ground arith

compare_all-of_provider :
    (previous : Dict String) (found : List Transition) (d : Dict Look) (q : String)
    → q ≢ "unknown"
    → Unique d
    → of_provider q (compare_all previous found d).1
      ≡ of_provider q found ++ change_of (get previous q) q (get d q)
unfolding compare_all get change_of
compare_all-of_provider previous found [] q n u = sym (append_nil (of_provider q found))
compare_all-of_provider previous found ((name, entry) ∷ d) q n u =
    let next = put previous name (current_status entry) in
    let more = found ++ change (get previous name) name entry in
    elim (Bool-cases (str_eq name "unknown")) [
      | inl e ↦
          let apart : str_eq name q ≡ false =
            ground (arith, eq_iff name "unknown", eq_iff name q) in
          rw (e, apart) (compare_all-of_provider previous found d q n u.1)
      | inr e ↦
          let rest = compare_all-of_provider next more d q n u.1 in
          elim (Bool-cases (str_eq name q)) [
            | inl s ↦
                let same = (eq_iff name q).0 s in
                rw (e, s)
                  (rest
                    ∙ ap (λ o. of_provider q more ++ change_of (get next q) q o)
                        (ap (get d) (sym same) ∙ u.0)
                    ∙ append_nil (of_provider q more)
                    ∙ of_provider-append q found (change (get previous name) name entry)
                    ∙ ap
                        (λ k.
                          of_provider q found ++ of_provider q (change (get previous k) k entry))
                        same
                    ∙ ap (λ ts. of_provider q found ++ ts)
                        (of_provider-change_self (get previous q) q entry))
            | inr s ↦
                rw (e, s)
                  (rest
                    ∙ ap (λ o. of_provider q more ++ change_of o q (get d q))
                        (get-put_if previous name q (current_status entry) s)
                    ∙ ap (λ ts. ts ++ change_of (get previous q) q (get d q))
                        (of_provider-append q found (change (get previous name) name entry)
                          ∙ ap (λ ts. of_provider q found ++ ts)
                              (of_provider-change_other (get previous name) name q entry s)
                          ∙ append_nil (of_provider q found)))
          ]
    ]

-- After the first look, if no name stands twice, the transitions of a provider that is not called
-- "unknown" are the one from its last known status ("unknown" if it is new) to its status now, if
-- they differ, and none if it is gone.
pub check_transitions-change :
    (a : Alerter) (providers : Dict Look) (q : String)
    → a.previous_state ≢ []
    → q ≢ "unknown"
    → Unique providers
    → of_provider q (check_transitions a providers).1
      ≡ change_of (get a.previous_state q) q (get providers q)
unfolding check_transitions of_provider filter
check_transitions-change a providers q h n u = elim (List-cases a.previous_state) [
  | inl e ↦ elim (h e) [ ]
  | inr (x, xs, e) ↦
      rw (check_transitions, e)
        (compare_all-of_provider a.previous_state [] providers q n u
          ∙ ap (λ p. change_of (get p q) q (get providers q)) e)
]
