-- ===== src/Aliases/Canonical.antt =====
-- `normalize_provider` is a projection onto canonical names.
use provider_health_daemon.Base.{
  String, ◌≡◌, refl, inl, inr, Bool, true, false, [], ◌∷◌, arith, str_eq, eq_iff, if_same, elem,
  Bool-cases, Option-cases, and_left, and_right, all, strip, lower, strip_idem, lower-strip,
  lower_idem, none, some,
}
use provider_health_daemon.Base.Dict.{Dict, get}
use provider_health_daemon.Aliases.{provider_alias_map, prefixes, lookup_alias, normalize_provider}

-- Every alias is a canonical name: it stands for itself.
canonical_values : Dict String → Bool
canonical_values = all (λ e. str_eq (normalize_provider e.1) e.1)

get-canonical :
    (d : Dict String) (k v : String)
    → canonical_values d ≡ true
    → get d k ≡ some v
    → normalize_provider v ≡ v
unfolding canonical_values all get
get-canonical [] k v ok h = ground arith
get-canonical ((j, w) ∷ d) k v ok h = elim (Bool-cases (str_eq j k)) [
  | inl e ↦
      let same : w ≡ v = ground arith in
      rw (← same) ((eq_iff _ w).0 (and_left _ (canonical_values d) ok))
  | inr e ↦ get-canonical d k v (and_right _ (canonical_values d) ok) (ground arith)
]

aliases-canonical : canonical_values provider_alias_map ≡ true
unfolding canonical_values all normalize_provider
aliases-canonical = refl

lookup_alias-some : (s v : String) → get provider_alias_map s ≡ some v → lookup_alias s ≡ v
unfolding lookup_alias
lookup_alias-some s v h = rw (lookup_alias, h) refl

lookup_alias-none : (s : String) → get provider_alias_map s ≡ none → lookup_alias s ≡ s
unfolding lookup_alias
lookup_alias-none s h = rw (lookup_alias, h) (if_same (elem s prefixes) s)

normalize_nonempty :
    (name : String)
    → str_eq name "" ≡ false
    → normalize_provider name ≡ lookup_alias (lower (strip name))
unfolding normalize_provider
normalize_nonempty name h = rw (normalize_provider, h) refl

normalize_unknown :
    (s : String) → lower (strip s) ≡ s → get provider_alias_map s ≡ none → normalize_provider s ≡ s
normalize_unknown s fixed h = elim (Bool-cases (str_eq s "")) [
  | inl e ↦ rw ((eq_iff s "").0 e) (unfold normalize_provider in refl)
  | inr e ↦ rw (normalize_nonempty s e, fixed) (lookup_alias-none s h)
]

lower-strip_idem : (n : String) → lower (strip (lower (strip n))) ≡ lower (strip n)
lower-strip_idem n = rw (← lower-strip (strip n), strip_idem n, lower_idem (strip n)) refl

normalize-lookup :
    (s : String) → lower (strip s) ≡ s → normalize_provider (lookup_alias s) ≡ lookup_alias s
normalize-lookup s fixed = elim (Option-cases (get provider_alias_map s)) [
  | inl e ↦ rw (lookup_alias-none s e) (normalize_unknown s fixed e)
  | inr (v, e) ↦
      rw (lookup_alias-some s v e) (get-canonical provider_alias_map s v aliases-canonical e)
]

-- Normalising a provider's name twice is normalising it once.
pub normalize_provider_idem :
    (name : String) → normalize_provider (normalize_provider name) ≡ normalize_provider name
normalize_provider_idem name = elim (Bool-cases (str_eq name "")) [
  | inl e ↦ rw ((eq_iff name "").0 e) (unfold normalize_provider in refl)
  | inr e ↦
      rw (normalize_nonempty name e) (normalize-lookup (lower (strip name)) (lower-strip_idem name))
]
