-- ===== src/Tests/Probing.antt =====
-- The theorems on the model prober at concrete inputs.
use provider_health_daemon.Base.{
  all, ◌≡◌, refl, inr, true, false, some, none, [], ◌∷◌, List, String, arith, str_eq, elem, All,
  strip, filter,
}
use provider_health_daemon.Base.Dict.{get, put}
use provider_health_daemon.Clock.{seconds, at}
use provider_health_daemon.Registry.{Registry, Entry, cooldown}
use provider_health_daemon.Prober.{
  Parser, Prober, Probed, Attempt, answer, due_models, is_due, probe_batch, is_empty_chat_response,
}
use provider_health_daemon.Prober.Batches.{picks, picks-cover}
use provider_health_daemon.Prober.Outcomes.{due_models-rests}
use provider_health_daemon.Tests.Cooldowns.{noon, rate_limited}
use provider_health_daemon.Tests.Health.{one_cooling}

empties :
    (is_empty_chat_response (some (record { content = some " \n"; has_call = false } ∷ [])) ≡ true)
    × (is_empty_chat_response (some (record { content = none; has_call = true } ∷ [])) ≡ false)
    × (is_empty_chat_response (some []) ≡ true)
    × (is_empty_chat_response none ≡ false)
unfolding is_empty_chat_response strip all
empties = (refl, refl, refl, refl)

abbrev limited : Parser
limited status body = rate_limited

abbrev idle : Prober
idle = record { cursor = 0; last_probe_at = [] }

abbrev before_probe : Probed
before_probe = record { registry = one_cooling; cooldowns_promoted = 4; disables = [] }

abbrev ping : Attempt
ping = record {
  now = noon;
  tick = seconds 500;
  jitter = 1_000_000;
  reply = answer 429 none "rate limited";
}

abbrev four : List String
four = "a" ∷ "b" ∷ "c" ∷ "d" ∷ []

picks-cover_example : picks 2 7 four ≡ four
picks-cover_example = picks-cover 7 four (omega arith) (inr (omega arith))

abbrev cooled : Entry
cooled = record {
  status = some cooldown;
  until = some (at 0);
  reason = some "generic_429";
  failures = 1;
  backoff_applied = false;
  provider = none;
  model = none;
  models = [];
  updated_at = some (at 0);
  last_probe_at = none;
}

-- The cooldown of three models has passed.
abbrev waiting : Registry
waiting = record one_cooling {
  health = record one_cooling.health {
    models = ("groq/a", cooled) ∷ ("groq/b", cooled) ∷ ("groq/c", cooled) ∷ [];
  };
}

abbrev next_ping : Attempt
next_ping = record ping { tick = seconds 510 }

abbrev after_batch : Prober
after_batch =
    (probe_batch limited idle before_probe ("groq/a" ∷ "groq/b" ∷ []) (ping ∷ next_ping ∷ [])).0

-- All are due before the batch, and only the one that was not probed is due just after it; the first of the
-- batch is due again before the second.
rests :
    (due_models noon (seconds 569) idle waiting
      ≡ ("groq/a", cooled) ∷ ("groq/b", cooled) ∷ ("groq/c", cooled) ∷ [])
    × (due_models noon (seconds 559) after_batch waiting ≡ ("groq/c", cooled) ∷ [])
    × (due_models noon (seconds 569) after_batch waiting
        ≡ ("groq/a", cooled) ∷ ("groq/c", cooled) ∷ [])
unfolding due_models probe_batch filter is_due get put
rests = (refl, refl, refl)

due_models-rests_example :
    All (λ e. str_eq e.0 "groq/b" ≡ false) (due_models noon (seconds 569) after_batch waiting)
unfolding elem
due_models-rests_example =
    due_models-rests limited idle before_probe (("groq/a", ping) ∷ []) "groq/b" [] next_ping [] noon
      (seconds 569) waiting refl (omega arith)
