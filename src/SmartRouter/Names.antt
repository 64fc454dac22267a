-- ===== src/SmartRouter/Names.antt =====
-- smart_router.py: what the id of a model tells. Digits, letters and the case of the "b" are those of
-- ASCII.
use Prim.Native.Char.{Char, code}
use provider_health_daemon.Base.{
  ℕ, zero, suc, ◌+◌, ◌-◌, ◌*◌, String, Bool, true, false, Option, none, some, List, [], ◌∷◌, ◌&&◌,
  ◌||◌, not, if◌then◌else◌, ltb, leb, ◌==◌, elem, any, strip,
}
use provider_health_daemon.SmartRouter.Tables.{
  non_chat_model_tokens, size_penalty_tiers, tiny_model_max_b,
}

abbrev pub is_digit : ℕ → Bool
is_digit c = leb b'0' c && leb c b'9'

abbrev pub is_word : ℕ → Bool
is_word c = is_digit c || (leb b'a' c && leb c b'z') || (leb b'A' c && leb c b'Z') || c == b'_'

-- A number of billions: the digits with the point left out, and the power of ten that it stands for.
pub record Decimal : Type 0 where
  pub digits : ℕ
  pub scale : ℕ

-- `a < b`
unfoldable pub ltb_decimal : Decimal → Decimal → Bool
ltb_decimal a b = ltb (a.digits * b.scale) (b.digits * a.scale)

-- `size >= n` for a whole number
unfoldable pub at_least : ℕ → Decimal → Bool
at_least n d = leb (n * d.scale) d.digits

-- What follows the number: "b" or "B", and no word character after it.
unfoldable pub is_word_first : String → Bool
is_word_first String.[] = false
is_word_first (String.◌∷◌ c s) = is_word (code c)

unfoldable pub ends_size : ℕ → String → Bool
unfolding is_word_first
ends_size c rest = (c == b'b' || c == b'B') && not (is_word_first rest)

-- Where a number is: in its whole part, just after its point, or in its fraction.
pub data Place : Type 0 where
  whole point fraction : Place

-- The place after a character that goes on with the number.
unfoldable pub place_after : Place → ℕ → Option Place
place_after whole c = if is_digit c then some whole else if c == b'.' then some point else none
place_after point c = if is_digit c then some fraction else none
place_after fraction c = if is_digit c then some fraction else none

unfoldable pub push : Place → Decimal → ℕ → Decimal
push whole d c = record { digits = d.digits * 10 + (c - b'0'); scale = 1 }
push point d c = d
push fraction d c = record { digits = d.digits * 10 + (c - b'0'); scale = d.scale * 10 }

abbrev pub may_end : Place → Bool
may_end whole = true
may_end point = false
may_end fraction = true

-- The rest of a match of `_SIZE_B_RE`: the number, and how many characters the match has in all.
unfoldable pub size_at : Place → Decimal → ℕ → String → Option (Decimal × ℕ)
unfolding place_after push ends_size
size_at place d taken String.[] = none
size_at place d taken (String.◌∷◌ c s) = elim (place_after place (code c)) [
  | some next ↦ size_at next (push next d (code c)) (taken + 1) s
  | none ↦ if may_end place && ends_size (code c) s then some (d, taken + 1) else none
]

-- A match that begins with this character.
unfoldable pub size_from : Char → String → Option (Decimal × ℕ)
unfolding size_at
size_from c s =
    if is_digit (code c)
    then size_at whole (record { digits = code c - b'0'; scale = 1 }) 1 s
    else none

-- `_SIZE_B_RE.findall`, with the number of characters of the last match that are still to be passed.
unfoldable pub find_sizes : ℕ → String → List Decimal
unfolding size_from
find_sizes n String.[] = []
find_sizes (suc n) (String.◌∷◌ c s) = find_sizes n s
find_sizes zero (String.◌∷◌ c s) = elim (size_from c s) [
  | none ↦ find_sizes 0 s
  | some (d, taken) ↦ d ∷ find_sizes (taken - 1) s
]

unfoldable pub max_decimal : List Decimal → Option Decimal
unfolding ltb_decimal
max_decimal [] = none
max_decimal (d ∷ ds) = elim (max_decimal ds) [
  | none ↦ some d
  | some e ↦ some (if ltb_decimal d e then e else d)
]

unfoldable pub estimate_size_billions : String → Option Decimal
unfolding find_sizes max_decimal
estimate_size_billions model_id = max_decimal (find_sizes 0 model_id)

unfoldable pub is_tiny_model : String → Bool
unfolding estimate_size_billions at_least
is_tiny_model model_id = elim (estimate_size_billions model_id) [
  | none ↦ false
  | some size ↦ not (at_least tiny_model_max_b size)
]

-- The penalty of the first tier that is reached, of the last one if none is.
unfoldable pub tier_penalty : List (ℕ × ℕ) → ℕ → Decimal → ℕ
unfolding at_least
tier_penalty [] last size = last
tier_penalty ((min_b, penalty) ∷ tiers) last size =
    let rest = tier_penalty tiers penalty size in if at_least min_b size then penalty else rest

unfoldable pub size_penalty : String → ℕ
unfolding estimate_size_billions tier_penalty
size_penalty model_id = elim (estimate_size_billions model_id) [
  | none ↦ 0
  | some size ↦ tier_penalty size_penalty_tiers 0 size
]

-- `s.rstrip("/")`
unfoldable pub rstrip_slash_cons : Char → String → String
rstrip_slash_cons c String.[] = if code c == b'/' then String.[] else String.◌∷◌ c String.[]
rstrip_slash_cons c (String.◌∷◌ d s) = String.◌∷◌ c (String.◌∷◌ d s)

unfoldable pub rstrip_slash : String → String
unfolding rstrip_slash_cons
rstrip_slash String.[] = String.[]
rstrip_slash (String.◌∷◌ c s) = rstrip_slash_cons c (rstrip_slash s)

abbrev pub cons_part : Char → List String → List String
cons_part c [] = String.◌∷◌ c String.[] ∷ []
cons_part c (part ∷ parts) = String.◌∷◌ c part ∷ parts

-- The parts between the characters for which the test holds.
unfoldable pub split : (ℕ → Bool) → String → List String
split p String.[] = String.[] ∷ []
split p (String.◌∷◌ c s) =
    let rest = split p s in if p (code c) then String.[] ∷ rest else cons_part c rest

unfoldable pub last_part : List String → String
last_part [] = String.[]
last_part (part ∷ []) = part
last_part (part ∷ next ∷ parts) = last_part (next ∷ parts)

abbrev pub is_slash : ℕ → Bool
is_slash c = c == b'/'

-- `[-_:.]`
abbrev pub is_separator : ℕ → Bool
is_separator c = c == b'-' || c == b'_' || c == b':' || c == b'.'

-- An empty token is in no table.
unfoldable pub is_non_chat_model : String → Bool
unfolding rstrip_slash split last_part
is_non_chat_model model_id =
    any (λ t. elem (strip t) non_chat_model_tokens)
      (split is_separator (last_part (split is_slash (rstrip_slash model_id))))
