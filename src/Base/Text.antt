-- ===== src/Base/Text.antt =====
-- Python's text operations that the program uses: membership in a set of texts, `strip`, `lower`,
-- `startswith` and `endswith` with the slice that drops the end, `split(sep)[0]` and `sep in s`.
use Prim.Native.Nat.{ℕ}
use Prim.Native.Char.{Char, code}
use Prim.Native.String.{String}
use mathlib.Core.Path.{◌≡◌, refl}
use mathlib.Core.Bool.{Bool, true, false, ◌||◌}
use mathlib.Core.Option.{Option, none, some}
use mathlib.Core.Option
use mathlib.Core.List.{List, [], ◌∷◌}
use text.Mathlib.Text.{◌==◌ as str_eq, find?}
use provider_health_daemon.Base.Tests.{if◌then◌else◌, ◌==◌}

-- `s in {...}` for a set of texts
unfoldable pub elem : String → List String → Bool
elem s [] = false
elem s (t ∷ ts) = if str_eq s t then true else elem s ts

-- `s[:-len(suffix)]` if `s.endswith(suffix)`, else nothing
unfoldable pub drop_suffix : String → String → Option String
drop_suffix suffix String.[] = if str_eq String.[] suffix then some String.[] else none
drop_suffix suffix (String.◌∷◌ c s) =
    if str_eq (String.◌∷◌ c s) suffix
    then some String.[]
    else Option.map (String.◌∷◌ c) (drop_suffix suffix s)

-- `s[len(prefix):]` if `s.startswith(prefix)`, else nothing
unfoldable pub drop_prefix : String → String → Option String
drop_prefix String.[] s = some s
drop_prefix (String.◌∷◌ c p) String.[] = none
drop_prefix (String.◌∷◌ c p) (String.◌∷◌ d s) =
    let rest = drop_prefix p s in if code c == code d then rest else none

-- `str.isspace` of one character, and `s.strip()`
abbrev pub space_codes : List ℕ
space_codes =
    9 ∷ 10 ∷ 11 ∷ 12 ∷ 13 ∷ 28 ∷ 29 ∷ 30 ∷ 31 ∷ 32 ∷ 133 ∷ 160 ∷ 5760 ∷ 8192 ∷ 8193 ∷ 8194 ∷ 8195
    ∷ 8196 ∷ 8197 ∷ 8198 ∷ 8199 ∷ 8200 ∷ 8201 ∷ 8202 ∷ 8232 ∷ 8233 ∷ 8239 ∷ 8287 ∷ 12288 ∷ []

unfoldable pub in_codes : ℕ → List ℕ → Bool
in_codes n [] = false
in_codes n (m ∷ ms) = n == m || in_codes n ms

unfoldable pub is_space : Char → Bool
unfolding in_codes
is_space c = in_codes (code c) space_codes

unfoldable pub trim_right_cons : Char → String → String
trim_right_cons c String.[] = if is_space c then String.[] else String.◌∷◌ c String.[]
trim_right_cons c (String.◌∷◌ d s) = String.◌∷◌ c (String.◌∷◌ d s)

unfoldable pub trim_right : String → String
unfolding trim_right_cons
trim_right String.[] = String.[]
trim_right (String.◌∷◌ c s) = trim_right_cons c (trim_right s)

unfoldable pub trim_left : String → String
trim_left String.[] = String.[]
trim_left (String.◌∷◌ c s) = if is_space c then trim_left s else String.◌∷◌ c s

unfoldable pub strip : String → String
unfolding trim_left trim_right is_space
strip s = trim_right (trim_left s)

-- `s.lower()` on the ASCII letters
abbrev pub Letters : Type 0
Letters = List (ℕ × Char)

abbrev pub letters : Letters
letters =
    (65, "a")
    ∷ (66, "b")
    ∷ (67, "c")
    ∷ (68, "d")
    ∷ (69, "e")
    ∷ (70, "f")
    ∷ (71, "g")
    ∷ (72, "h")
    ∷ (73, "i")
    ∷ (74, "j")
    ∷ (75, "k")
    ∷ (76, "l")
    ∷ (77, "m")
    ∷ (78, "n")
    ∷ (79, "o")
    ∷ (80, "p")
    ∷ (81, "q")
    ∷ (82, "r")
    ∷ (83, "s")
    ∷ (84, "t")
    ∷ (85, "u")
    ∷ (86, "v")
    ∷ (87, "w")
    ∷ (88, "x")
    ∷ (89, "y")
    ∷ (90, "z")
    ∷ []

unfoldable pub lower_from : Letters → Char → Char
lower_from [] c = c
lower_from ((n, d) ∷ t) c = if code c == n then d else lower_from t c

unfoldable pub lower_char : Char → Char
unfolding lower_from
lower_char = lower_from letters

unfoldable pub lower : String → String
unfolding lower_char
lower String.[] = String.[]
lower (String.◌∷◌ c s) = String.◌∷◌ (lower_char c) (lower s)

-- `s.split(c)[0]`
unfoldable pub before : ℕ → String → String
before n String.[] = String.[]
before n (String.◌∷◌ c s) =
    let rest = before n s in if code c == n then String.[] else String.◌∷◌ c rest

-- `t in s`
unfoldable pub contains : String → String → Bool
contains s t = elim (find? s t) [ none ↦ false | some _ ↦ true ]

test_text :
    (lower (strip "  Kiro \n") ≡ "kiro")
    × (before 47 "kr/auto" ≡ "kr")
    × (contains "a:free" ":free" ≡ true)
    × (drop_suffix " (probing)" "generic_429 (probing)" ≡ some "generic_429")
unfolding lower strip before contains drop_suffix
test_text = (refl, refl, refl, refl)
