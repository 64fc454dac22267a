-- ===== src/Policy.antt =====
-- data_policy.py: which models may see which data. kilo_policy.py: the flags of its catalogue, by
-- model; the catalogue itself comes from a service and is an argument.
use provider_health_daemon.Base.{
  String, Bool, true, false, Option, none, some, List, [], ◌∷◌, if◌then◌else◌, any, drop_prefix,
  elem, is_some, strip, lower, ◌||◌,
}
use provider_health_daemon.Base.Dict.{Dict, get}

pub data DataSensitivity : Type 0 where
  public internal sensitive : DataSensitivity

pub data DataPolicy : Type 0 where
  known_no_training_default training_possible local unknown : DataPolicy

-- `kilo_policy.get`
unfoldable pub kilo_policy : Dict Bool → String → Option Bool
kilo_policy policies model = get policies (strip model)

unfoldable pub starts_with_any : List String → String → Bool
starts_with_any ps s = any (λ p. is_some (drop_prefix p s)) ps

unfoldable pub by_prefix : String → DataPolicy
unfolding starts_with_any
by_prefix model =
    if elem model ("kilo-auto/free" ∷ "kilo/auto-free" ∷ [])
      || starts_with_any ("nvidia/" ∷ []) model
    then training_possible
    else if starts_with_any ("ollama/" ∷ "lmstudio/" ∷ "lm-studio/" ∷ "local/" ∷ []) model
    then local
    else if starts_with_any ("openai/" ∷ "anthropic/" ∷ "google/" ∷ []) model
    then known_no_training_default
    else unknown

unfoldable pub classify_model_policy : Dict Bool → String → DataPolicy
unfolding kilo_policy by_prefix
classify_model_policy policies model =
    let id = lower (strip model) in
    elim (kilo_policy policies id) [
      | some true ↦ training_possible
      | some false ↦ known_no_training_default
      | none ↦ by_prefix id
    ]

unfoldable pub may_train : DataPolicy → Bool
may_train training_possible = true
may_train _ = false

unfoldable pub allowed : DataPolicy → DataSensitivity → Bool
unfolding may_train
allowed policy public = true
allowed policy internal = if may_train policy then false else true
allowed policy sensitive = if may_train policy then false else true
