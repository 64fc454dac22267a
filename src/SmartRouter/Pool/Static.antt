-- ===== src/SmartRouter/Pool/Static.antt =====
-- smart_router.py: `_filter_static_models`, the filter of cached lists.
use provider_health_daemon.Base.{
  ℕ, String, Bool, true, false, not, ◌&&◌, ◌||◌, Option, none, some, List, [], ◌∷◌, if◌then◌else◌,
  elem, any, contains, before, drop_prefix, is_some,
}
use provider_health_daemon.Base.Dict.{Dict, get}
use provider_health_daemon.Base.Sets.{add}
use provider_health_daemon.SmartRouter.Tables.{
  dead_models, blocked_model_substrings, free_tier_suffix_only, free_tier_auto_suffix_only,
  provider_allowlist,
}
use provider_health_daemon.SmartRouter.Names.{is_non_chat_model, is_tiny_model}
use provider_health_daemon.SmartRouter.Pool.{Pool, Connection, get_locked_model_ids}
pub mod Passes

-- A model with a provider, that is neither dead nor of a dead family.
unfoldable pub is_known_good : String → Bool
unfolding any contains
is_known_good mid =
    contains mid "/"
    && not (elem mid dead_models)
    && not (any (λ blk. contains mid blk) blocked_model_substrings)
    && not (is_some (drop_prefix "@" (before b'/' mid)))

-- A provider of which only some models are free serves only those.
unfoldable pub is_free : String → Bool
is_free mid =
    let provider = before b'/' mid in
    not (elem provider free_tier_suffix_only && not (contains mid ":free"))
    && not (elem provider free_tier_auto_suffix_only && not (contains mid "-free-auto"))

abbrev pub in_list : Option (List String) → String → Bool
in_list none mid = true
in_list (some models) mid = elem mid models

-- A provider with an allowlist serves only what is on it.
unfoldable pub is_allowed : String → Bool
is_allowed mid = in_list (get provider_allowlist (before b'/' mid)) mid

unfoldable pub is_chat_model : String → Bool
is_chat_model mid = not (is_non_chat_model mid) && not (is_tiny_model mid)

-- The verdict on one model; the locks are asked for only if it is needed.
unfoldable pub static_verdict : ℕ → Option (Dict Connection) → Pool → String → Pool × Bool
unfolding is_known_good is_free is_allowed is_chat_model
static_verdict now connections p mid =
    if is_known_good mid
    then (let (p', locked) = get_locked_model_ids now connections p in
        (p', not (elem mid locked) && is_free mid && is_allowed mid && is_chat_model mid))
    else (p, false)

unfoldable pub static_loop :
    ℕ → Option (Dict Connection) → Pool → List String → List String → Pool × List String
unfolding static_verdict add
static_loop now connections p out [] = (p, out)
static_loop now connections p out (mid ∷ mids) =
    let (p', passes) = static_verdict now connections p mid in
    static_loop now connections p' (if passes then add out mid else out) mids

unfoldable pub filter_static_models :
    ℕ → Option (Dict Connection) → Pool → List String → Pool × List String
unfolding static_loop
filter_static_models now connections p mids = static_loop now connections p [] mids
