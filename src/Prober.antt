-- ===== src/Prober.antt =====
-- model_prober.py: `ModelProber`. The gateway's reply, the texts of errors and what error_parser.py makes
-- of them are arguments; what is asked of the 9router catalog is a trace. A time of the monotonic clock
-- is a count of microseconds.
use provider_health_daemon.Base.{
  ℕ, suc, ◌+◌, ◌/◌, String, Bool, true, false, not, ◌&&◌, ◌||◌, Option, none, some, List, [], ◌∷◌,
  ◌++◌, map, if◌then◌else◌, ltb, leb, ◌==◌, all, filter, length, take, drop, or_else, before, strip,
  str_eq,
}
use provider_health_daemon.Base.Dict.{Dict, get, put}
use provider_health_daemon.Clock.{Stamp, at, malformed, seconds}
use provider_health_daemon.Cooldown.{ErrorInfo}
use provider_health_daemon.Registry.{
  Registry, Entry, Status, healthy, cooldown, probing, disabled, other, get_model,
}
use provider_health_daemon.Registry.Errors.{mark_healthy, mark_error, failures_of}
pub mod Batches
pub mod Outcomes

abbrev pub models_probe_batch : ℕ
models_probe_batch = 3

abbrev pub max_failures : ℕ
max_failures = 30

-- A message of a choice: its textual content, and whether it has a tool or function call.
pub record Message : Type 0 where
  pub content : Option String
  pub has_call : Bool

abbrev is_blank : Option String → Bool
is_blank none = true
is_blank (some s) = str_eq (strip s) ""

-- `_is_empty_chat_response`: a body that is not JSON, or has no choices that can be read, is `none`.
unfoldable pub is_empty_chat_response : Option (List Message) → Bool
is_empty_chat_response none = false
is_empty_chat_response (some choices) = all (λ m. is_blank m.content && not m.has_call) choices

-- How a request ends: an answer, an HTTP error, or a failure of the transport.
pub data Reply : Type 0 where
  answer : ℕ → Option (List Message) → String → Reply
  http_error : ℕ → String → Reply
  transport : String → Reply

pub data Outcome : Type 0 where
  works : Outcome
  fails : ℕ → String → Outcome

-- `_probe_model`
unfoldable pub outcome_of : Reply → Outcome
unfolding is_empty_chat_response
outcome_of (answer status body text) =
    if status == 200
    then if is_empty_chat_response body then fails 200 "empty_response" else works
    else fails status text
outcome_of (http_error status text) = fails status text
outcome_of (transport text) = fails 0 text

pub record Prober : Type 0 where
  pub cursor : ℕ
  pub last_probe_at : Dict ℕ

abbrev may_recover : Option Status → Bool
may_recover none = false
may_recover (some healthy) = false
may_recover (some cooldown) = true
may_recover (some probing) = true
may_recover (some disabled) = false
may_recover (some (other _)) = false

abbrev has_passed : ℕ → Option Stamp → Bool
has_passed now none = false
has_passed now (some malformed) = false
has_passed now (some (at t)) = leb t now

-- Within a minute of the last attempt, or of the start of the clock.
abbrev pub probed_lately : ℕ → Prober → String → Bool
probed_lately tick p model_id = ltb tick (or_else (get p.last_probe_at model_id) 0 + seconds 60)

unfoldable pub is_due : ℕ → ℕ → Prober → String × Entry → Bool
is_due now tick p (model_id, e) =
    may_recover e.status && has_passed now e.until && not (probed_lately tick p model_id)

unfoldable pub due_models : ℕ → ℕ → Prober → Registry → Dict Entry
unfolding is_due filter
due_models now tick p r = filter (is_due now tick p) r.health.models

-- `_pick_batch`: the new cursor and the slice.
unfoldable pub pick_batch {ℓ} : {A : Type ℓ} → ℕ → List A → ℕ × List A
pick_batch cursor due =
    if leb (length due) models_probe_batch
    then (cursor, due)
    else (let start = if leb (length due) cursor then 0 else cursor in
        (start + models_probe_batch, take models_probe_batch (drop start due)))

-- The registry, the count of promotions, and the models that the catalog is asked to disable.
pub record Probed : Type 0 where
  pub registry : Registry
  pub cooldowns_promoted : ℕ
  pub disables : List (String × String)

-- What comes of one attempt at an instant, with the jitter of the cooldown.
pub record Attempt : Type 0 where
  pub now : ℕ
  pub tick : ℕ
  pub jitter : ℕ
  pub reply : Reply

abbrev pub Parser : Type 0
Parser = ℕ → String → ErrorInfo

-- A model that has failed too often is disabled in the catalog.
abbrev ask_disable : Probed → Registry → String → String → Probed
ask_disable s r provider model_id =
    if leb max_failures (failures_of (get_model r model_id))
    then record s { registry = r; disables = s.disables ++ (provider, model_id) ∷ [] }
    else record s { registry = r }

unfoldable pub apply_outcome : Parser → ℕ → ℕ → Probed → String → Outcome → Probed
unfolding mark_healthy mark_error failures_of
apply_outcome parse now jitter s model_id works = record s {
  registry = mark_healthy now s.registry (before b'/' model_id) (some model_id);
  cooldowns_promoted = suc s.cooldowns_promoted;
}
apply_outcome parse now jitter s model_id (fails status body) =
    ask_disable s
      (mark_error now jitter s.registry (before b'/' model_id) (parse status body) (some model_id))
      (before b'/' model_id) model_id

-- The loop over a batch: each attempt is noted before it is made, and the loop stops where the attempts
-- do, which is when the daemon is told to stop.
unfoldable pub probe_batch : Parser → Prober → Probed → List String → List Attempt → Prober × Probed
unfolding outcome_of apply_outcome
probe_batch parse p s [] attempts = (p, s)
probe_batch parse p s (m ∷ ms) [] = (p, s)
probe_batch parse p s (m ∷ ms) (a ∷ attempts) =
    probe_batch parse (record p { last_probe_at = put p.last_probe_at m a.tick })
      (apply_outcome parse a.now a.jitter s m (outcome_of a.reply)) ms attempts

-- One cycle of `run_forever`.
unfoldable pub probe_cycle : Parser → ℕ → ℕ → Prober → Probed → List Attempt → Prober × Probed
unfolding due_models pick_batch probe_batch
probe_cycle parse now tick p s attempts =
    let due = due_models now tick p s.registry in
    let (cursor, batch) = pick_batch p.cursor due in
    probe_batch parse (record p { cursor = cursor }) s (map (λ e. e.0) batch) attempts
