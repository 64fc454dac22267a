-- ===== src/Base/TextLaws.antt =====
-- Laws of `strip`, `lower` and the suffixes.
use Prim.Native.Nat.{ℕ}
use Prim.Native.Char.{Char, code}
use Prim.Native.String.{String, count, ◌++◌ as append}
use Prim.Native.String.append as append_clauses
use mathlib.Core.Path.{◌≡◌, refl, ap, ◌∙◌}
use mathlib.Core.Bool.{Bool, true, false, not, ◌&&◌}
use mathlib.Core.Logic.{◌⊎◌, inl, inr}
use mathlib.Core.Option.{some}
use mathlib.Core.List.{[], ◌∷◌}
use native.Mathlib.Omega.{arith}
use text.Mathlib.Text.{◌==◌ as str_eq}
use text.Mathlib.TextEquality.{eq_iff, Char-path}
use text.Mathlib.TextPositions.{eq_refl}
use text.Mathlib.TextLemmas.{length-append, length-cons}
use provider_health_daemon.Base.Lists.{all}
use provider_health_daemon.Base.Tests.{◌==◌, ==_iff, Bool-cases, and_left, and_right}
use provider_health_daemon.Base.Text.{
  drop_suffix, space_codes, in_codes, is_space, trim_right_cons, trim_right, trim_left, strip,
  Letters, letters, lower_from, lower_char, lower,
}

longer-ne : (c : Char) (s t : String) → str_eq (String.◌∷◌ c (append s t)) t ≡ false
longer-ne c s t = elim (Bool-cases (str_eq (String.◌∷◌ c (append s t)) t)) [
  | inl e ↦
      let same : count (String.◌∷◌ c (append s t)) ≡ count t = ap count ((eq_iff _ _).0 e) in
      absurd (omega (arith, same, length-append s t, length-cons c (append s t)))
  | inr e ↦ e
]

-- Dropping the suffix of `s + suffix` gives `s` back.

pub drop_suffix-append : (s suffix : String) → drop_suffix suffix (append s suffix) ≡ some s
unfolding drop_suffix
drop_suffix-append String.[] String.[] = rw (append_clauses.nil String.[]) refl
drop_suffix-append String.[] (String.◌∷◌ c t) =
    rw (append_clauses.nil (String.◌∷◌ c t), eq_refl (String.◌∷◌ c t)) refl
drop_suffix-append (String.◌∷◌ c s) suffix =
    rw (append_clauses.cons c s suffix, longer-ne c s suffix, drop_suffix-append s suffix) refl

-- `trim_right` and `trim_left` are idempotent, and trimming on the right keeps a trimmed left end.

trim_right-trim_right_cons :
    (c : Char) (s : String)
    → trim_right s ≡ s
    → trim_right (trim_right_cons c s) ≡ trim_right_cons c s
unfolding trim_right
trim_right-trim_right_cons c String.[] h = elim (Bool-cases (is_space c)) [
  | inl e ↦ rw (e, trim_right_cons) refl
  | inr e ↦ rw (e, trim_right_cons, e) refl
]
trim_right-trim_right_cons c (String.◌∷◌ d s) h = rw h refl

trim_right_idem : (s : String) → trim_right (trim_right s) ≡ trim_right s
unfolding trim_right
trim_right_idem String.[] = refl
trim_right_idem (String.◌∷◌ c s) = trim_right-trim_right_cons c (trim_right s) (trim_right_idem s)

trim_left-trim_right_cons :
    (c : Char) (s : String)
    → is_space c ≡ false
    → trim_left (trim_right_cons c s) ≡ trim_right_cons c s
unfolding trim_left trim_right_cons
trim_left-trim_right_cons c String.[] h = rw (h, h) refl
trim_left-trim_right_cons c (String.◌∷◌ d s) h = rw h refl

trim_left-strip : (s : String) → trim_left (trim_right (trim_left s)) ≡ trim_right (trim_left s)
unfolding trim_left trim_right
trim_left-strip String.[] = refl
trim_left-strip (String.◌∷◌ c s) = elim (Bool-cases (is_space c)) [
  | inl e ↦ rw e (trim_left-strip s)
  | inr e ↦ rw e (trim_left-trim_right_cons c (trim_right s) e)
]

pub strip_idem : (s : String) → strip (strip s) ≡ strip s
unfolding strip
strip_idem s = rw (trim_left-strip s) (trim_right_idem (trim_left s))

-- Lower case neither makes nor removes white space, and is idempotent.
apart : (ℕ → Bool) → Letters → Bool
apart p = all (λ e. not (p e.0) && not (p (code e.1)))

lower_from-apart :
    (p : ℕ → Bool) (t : Letters) (c : Char)
    → apart p t ≡ true
    → p (code (lower_from t c)) ≡ p (code c)
unfolding apart all lower_from
lower_from-apart p [] c h = refl
lower_from-apart p ((n, d) ∷ t) c h = elim (Bool-cases (code c == n)) [
  | inl e ↦ let same : code c ≡ n = ground arith in rw (e, same) (ground arith)
  | inr e ↦ rw e (lower_from-apart p t c (ground arith))
]

is_space-lower_char : (c : Char) → is_space (lower_char c) ≡ is_space c
unfolding lower_char apart all is_space
is_space-lower_char c = lower_from-apart (λ n. in_codes n space_codes) letters c refl

lower-trim_right_cons :
    (c : Char) (s : String) → lower (trim_right_cons c s) ≡ trim_right_cons (lower_char c) (lower s)
unfolding trim_right_cons lower
lower-trim_right_cons c String.[] =
    rw (is_space-lower_char c)
      (elim (Bool-cases (is_space c)) [ inl e ↦ rw e refl | inr e ↦ rw e refl ])
lower-trim_right_cons c (String.◌∷◌ d s) = refl

lower-trim_right : (s : String) → lower (trim_right s) ≡ trim_right (lower s)
unfolding lower trim_right
lower-trim_right String.[] = refl
lower-trim_right (String.◌∷◌ c s) =
    lower-trim_right_cons c (trim_right s)
    ∙ ap (trim_right_cons (lower_char c)) (lower-trim_right s)

lower-trim_left : (s : String) → lower (trim_left s) ≡ trim_left (lower s)
unfolding lower trim_left
lower-trim_left String.[] = refl
lower-trim_left (String.◌∷◌ c s) =
    rw (is_space-lower_char c)
      (elim (Bool-cases (is_space c)) [ inl e ↦ rw e (lower-trim_left s) | inr e ↦ rw e refl ])

pub lower-strip : (s : String) → lower (strip s) ≡ strip (lower s)
unfolding strip
lower-strip s = lower-trim_right (trim_left s) ∙ ap trim_right (lower-trim_left s)

lower_from_fixed : Letters → Bool
lower_from_fixed = all (λ e. code (lower_from letters e.1) == code e.1)

lower_from_hits :
    (t : Letters) (c : Char)
    → lower_from_fixed t ≡ true
    → (lower_from t c ≡ c) ⊎ (lower_from letters (lower_from t c) ≡ lower_from t c)
unfolding lower_from_fixed all lower_from
lower_from_hits [] c h = inl refl
lower_from_hits ((n, d) ∷ t) c h = elim (Bool-cases (code c == n)) [
  | inl e ↦ rw e (inr (Char-path _ _ ((==_iff _ _).0 (and_left _ (lower_from_fixed t) h))))
  | inr e ↦ rw e (lower_from_hits t c (and_right _ (lower_from_fixed t) h))
]

lower_char_idem : (c : Char) → lower_char (lower_char c) ≡ lower_char c
unfolding lower_char lower_from_fixed all
lower_char_idem c = elim (lower_from_hits letters c refl) [
  | inl e ↦ ap (lower_from letters) e
  | inr e ↦ e
]

pub lower_idem : (s : String) → lower (lower s) ≡ lower s
unfolding lower
lower_idem String.[] = refl
lower_idem (String.◌∷◌ c s) = cc (lower_char_idem c, lower_idem s)
