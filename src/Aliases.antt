-- ===== src/Aliases.antt =====
-- provider_aliases.py: the alias map and `normalize_provider`; `PROVIDER_DENYLIST` of config.py.
-- Case is folded on the ASCII letters only.
pub mod Canonical
use provider_health_daemon.Base.{
  String, Bool, true, false, ◌&&◌, ◌||◌, none, some, List, [], ◌∷◌, str_eq, leb, ◌==◌,
  if◌then◌else◌, elem, strip, lower, drop_prefix, is_some, ◌≡◌, refl,
}
use provider_health_daemon.Base.Dict.{Dict, get, values}
use Prim.Native.Char.{code}

abbrev pub provider_alias_map : Dict String
provider_alias_map =
    ("kiro", "kr")
    ∷ ("cursor", "cu")
    ∷ ("bazaarlink", "bzl")
    ∷ ("persorai", "persor")
    ∷ ("free.ai", "freeai")
    ∷ ("freeai", "freeai")
    ∷ ("sambanova", "samba")
    ∷ ("byteplus", "bpm")
    ∷ ("grok-cli", "gcli")
    ∷ ("cloudflare-ai", "cf")
    ∷ ("cf-ai", "cf")
    ∷ ("antigravity", "ag")
    ∷ ("codex", "cx")
    ∷ ("github", "gh")
    ∷ ("poolside", "ps")
    ∷ ("api-airforce", "af")
    ∷ ("kilocode", "kc")
    ∷ ("cline", "cl")
    ∷ ("openai-compatible-chat-50188b71-3f95-463f-9d88-45b655f507cd", "rw")
    ∷ ("openai-compatible-chat-09c4fe6c-3979-456f-b5fc-f9f589c7e721", "any")
    ∷ ("openai-compatible-chat-e27ce9fc-dfed-45ee-a6c8-fe8519f2e636", "hf")
    ∷ []

-- `PREFIX_TO_ALIAS` is only asked for membership, and both of its branches return the same text.
abbrev pub prefixes : List String
prefixes = values provider_alias_map

unfoldable pub lookup_alias : String → String
unfolding get elem
lookup_alias normalized = elim (get provider_alias_map normalized) [
  | some alias ↦ alias
  | none ↦ if elem normalized prefixes then normalized else normalized
]

unfoldable pub normalize_provider : String → String
unfolding lookup_alias strip lower
normalize_provider name = if str_eq name "" then "" else lookup_alias (lower (strip name))

-- `^model-[a-z]$` on a lower-case text; `$` also matches before a last line break.
one_letter : String → Bool
one_letter String.[] = false
one_letter (String.◌∷◌ c String.[]) = leb b'a' (code c) && leb (code c) b'z'
one_letter (String.◌∷◌ c (String.◌∷◌ d String.[])) =
    leb b'a' (code c) && leb (code c) b'z' && code d == 10
one_letter (String.◌∷◌ c (String.◌∷◌ d (String.◌∷◌ e s))) = false

-- `^test[-_:]` after `test`
separator_first : String → Bool
separator_first String.[] = false
separator_first (String.◌∷◌ c s) = code c == b'-' || code c == b'_' || code c == b':'

-- `PROVIDER_DENYLIST.match`: every alternative is tried at the start of the text only.
unfoldable pub is_denied : String → Bool
unfolding one_letter separator_first lower drop_prefix
is_denied name =
    let s = lower name in
    elim (drop_prefix "model-" s) [ none ↦ false | some rest ↦ one_letter rest ]
    || is_some (drop_prefix "mock" s)
    || elim (drop_prefix "test" s) [ none ↦ false | some rest ↦ separator_first rest ]
    || is_some (drop_prefix "fixture" s)

test_aliases :
    (normalize_provider " Kiro " ≡ "kr")
    × (normalize_provider "openrouter" ≡ "openrouter")
    × (is_denied "model-A" ≡ true)
    × (is_denied "modelark" ≡ false)
    × (is_denied "my-fixture" ≡ false)
unfolding normalize_provider is_denied
test_aliases = (refl, refl, refl, refl, refl)
