-- ===== src/Alerts.antt =====
-- alerter.py: the transitions between two looks at the providers, and which of them are notified. The
-- call of `notify-send` is an entry of the trace `sent`; whether it works changes nothing else.
use Prim.Native.String.{◌++◌ as append}
use mathlib.Core.Option
use provider_health_daemon.Base.{
  ℕ, ◌+◌, String, Bool, true, false, Option, none, some, List, [], ◌∷◌, ◌++◌, if◌then◌else◌, ltb,
  elem, is_some, str_eq, or_else, ◌&&◌, ◌||◌, not,
}
use provider_health_daemon.Base.Dict.{Dict, get, put, remove, keys}
pub mod Throttle
pub mod Changes

-- What `check_transitions` reads of a provider's entry. For the status, `none` is a missing key; for the
-- reason, a missing key or `None`.
pub record Look : Type 0 where
  pub status : Option String
  pub reason : Option String

pub record Transition : Type 0 where
  pub provider : String
  pub from : String
  pub to : String
  pub reason : Option String

pub record Notification : Type 0 where
  pub urgency : String
  pub title : String
  pub body : String

pub record Alerter : Type 0 where
  pub previous_state : Dict String
  pub alert_log : List Transition
  pub last_alert : Dict (String × ℕ)
  pub throttle : ℕ
  pub sent : List Notification

abbrev pub new_alerter : ℕ → Alerter
new_alerter throttle = record {
  previous_state = [];
  alert_log = [];
  last_alert = [];
  throttle = throttle;
  sent = [];
}

abbrev pub current_status : Look → String
current_status entry = or_else entry.status "healthy"

-- The baseline of the first call.
unfoldable pub baseline : Dict String → Dict Look → Dict String
baseline previous [] = previous
baseline previous ((name, entry) ∷ rest) =
    baseline (if str_eq name "unknown" then previous else put previous name (current_status entry))
      rest

-- The transition of one provider, if its status changed.
unfoldable pub change : Option String → String → Look → List Transition
change previous name entry =
    let before = or_else previous "unknown" in
    if str_eq (current_status entry) before
    then []
    else record { provider = name; from = before; to = current_status entry; reason = entry.reason }
      ∷ []

-- The loop over the providers: the previous statuses and the transitions so far.
unfoldable pub compare_all :
    Dict String → List Transition → Dict Look → Dict String × List Transition
unfolding change
compare_all previous found [] = (previous, found)
compare_all previous found ((name, entry) ∷ rest) =
    if str_eq name "unknown"
    then compare_all previous found rest
    else compare_all (put previous name (current_status entry))
        (found ++ change (get previous name) name entry) rest

-- The providers that are gone are forgotten.
unfoldable pub forget_gone : Dict Look → List String → Dict String → Dict String
forget_gone providers [] previous = previous
forget_gone providers (name ∷ names) previous =
    forget_gone providers names
      (if is_some (get providers name) then previous else remove previous name)

unfoldable pub check_transitions : Alerter → Dict Look → Alerter × List Transition
unfolding baseline compare_all forget_gone
check_transitions a providers =
    let compared = compare_all a.previous_state [] providers in
    elim a.previous_state [
      | [] ↦ (record a { previous_state = baseline [] providers }, [])
      | e ∷ es ↦ (
        record a { previous_state = forget_gone providers (keys compared.0) compared.0 },
        compared.1,
      )
    ]

abbrev pub significant_transitions : List (String × String)
significant_transitions =
    ("healthy", "cooldown")
    ∷ ("healthy", "disabled")
    ∷ ("cooldown", "probing")
    ∷ ("probing", "healthy")
    ∷ ("cooldown", "healthy")
    ∷ ("healthy", "degraded")
    ∷ ("degraded", "healthy")
    ∷ []

unfoldable pub is_pair_in : String → String → List (String × String) → Bool
is_pair_in a b [] = false
is_pair_in a b ((x, y) ∷ ps) = (str_eq a x && str_eq b y) || is_pair_in a b ps

unfoldable pub is_significant : Transition → Bool
unfolding is_pair_in
is_significant t = is_pair_in t.from t.to significant_transitions

unfoldable pub is_recent_alert : ℕ → ℕ → String → Option (String × ℕ) → Bool
is_recent_alert now throttle to none = false
is_recent_alert now throttle to (some (last_status, last_time)) =
    str_eq last_status to && ltb now (last_time + throttle)

unfoldable pub is_throttled : ℕ → Alerter → Transition → Bool
unfolding is_recent_alert
is_throttled now a t = is_recent_alert now a.throttle t.to (get a.last_alert t.provider)

unfoldable pub notification : Transition → Notification
notification t =
    if elem t.to ("cooldown" ∷ "disabled" ∷ []) && str_eq t.from "healthy"
    then record {
      urgency = "critical";
      title = append "⚠ " (append t.provider " DOWN");
      body = or_else t.reason "";
    }
    else if str_eq t.to "healthy" && elem t.from ("cooldown" ∷ "probing" ∷ [])
    then record {
      urgency = "normal";
      title = append "✅ " (append t.provider " RECOVERED");
      body = "";
    }
    else if str_eq t.to "probing" && str_eq t.from "cooldown"
    then record { urgency = "low"; title = append "🔄 " (append t.provider " PROBING"); body = "" }
    else record {
      urgency = "normal";
      title = append "• " (append t.provider (append ": " (append t.from (append " → " t.to))));
      body = "";
    }

unfoldable pub alert : ℕ → Alerter → Transition → Alerter × Bool
unfolding is_significant is_throttled notification
alert now a t = if not (is_significant t) || is_throttled now a t then (a, false) else (
  record a {
    last_alert = put a.last_alert t.provider (t.to, now);
    alert_log = a.alert_log ++ t ∷ [];
    sent = a.sent ++ notification t ∷ [];
  },
  true,
)
