-- ===== src/Tests/Breakers.antt =====
-- The circuit breaker's theorems at concrete inputs.
use provider_health_daemon.Base.{
  ℕ, ◌+◌, ◌≤◌, ◌≡◌, refl, true, false, none, List, [], ◌∷◌, map, arith,
}
use provider_health_daemon.Base.Dict.{get-empty}
use provider_health_daemon.Clock.{seconds, days}
use provider_health_daemon.Registry.{Registry, Breaker, closed, opened, empty_state}
use provider_health_daemon.Registry.Circuit.{new_breaker, cb_success_threshold, execute_step}
use provider_health_daemon.Registry.Circuit.Machine.{
  Event, fail, succeed, execute, release, run, machine,
}
use provider_health_daemon.Registry.Circuit.Recovery.{
  burst_opens, refuses_while_open, closes_after_successes, successes_in,
}
use provider_health_daemon.Registry.Circuit.Calls.{
  Call, failed, succeeded, asked, released, limited, calls, BreakersAreValid, calls-IsValid,
}

program : Unit {0}
unfolding run machine
program = tt

abbrev noon : ℕ
noon = days 739_000

abbrev five_times : List ℕ
five_times =
    noon
    ∷ (noon + seconds 60)
    ∷ (noon + seconds 120)
    ∷ (noon + seconds 180)
    ∷ (noon + seconds 599)
    ∷ []

burst_opens_example : (run (new_breaker noon) (map fail five_times)).state ≡ opened
burst_opens_example =
    burst_opens noon (new_breaker noon) five_times (omega arith) (omega arith) (omega arith)

abbrev tripped : Breaker
tripped = record (new_breaker noon) { state = opened }

abbrev pestering : List Event
pestering =
    fail (noon + seconds 10)
    ∷ execute (noon + seconds 20) true
    ∷ succeed (noon + seconds 179)
    ∷ release
    ∷ []

refuses_while_open_example :
    (execute_step (noon + seconds 179) true (run tripped pestering)).2 ≡ false
refuses_while_open_example =
    refuses_while_open tripped noon pestering (noon + seconds 179) true refl refl (omega arith)
      (omega arith)

abbrev recovering : List Event
recovering =
    execute (noon + seconds 200) true
    ∷ succeed (noon + seconds 201)
    ∷ succeed (noon + seconds 202)
    ∷ succeed (noon + seconds 203)
    ∷ []

recovers : (run tripped recovering).state ≡ closed
unfolding program
recovers = refl

closes_after_successes_example : cb_success_threshold ≤ successes_in recovering
closes_after_successes_example = closes_after_successes tripped recovering refl recovers

abbrev fresh : Registry
fresh = record {
  health = empty_state;
  file = none;
  writable = true;
  calculator = record { max_cooldown = seconds 86_400; max_failures = 30 };
}

fresh-IsValid : BreakersAreValid fresh
fresh-IsValid = record { at_provider = λ q cb h. cc (get-empty {V = Breaker} q) }

abbrev some_calls : List Call
some_calls =
    failed noon "kiro"
    ∷ asked (noon + seconds 1) "kr" true
    ∷ limited (noon + seconds 2) "groq"
    ∷ succeeded (noon + seconds 3) "kr"
    ∷ released (noon + seconds 4) "groq"
    ∷ []

calls-IsValid_example : BreakersAreValid (calls fresh some_calls)
calls-IsValid_example = calls-IsValid fresh some_calls fresh-IsValid
