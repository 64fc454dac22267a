-- ===== src/Tests/Proxying.antt =====
-- The theorems on the proxies, the usage and the aliases of models at concrete inputs.
use provider_health_daemon.Base.{
  ◌≡◌, refl, true, false, some, none, [], ◌∷◌, List, String, elem, any, strip, contains, filter,
  sum_by,
}
use provider_health_daemon.Base.Dict.{get, put, values}
use provider_health_daemon.Proxies.{
  ProxyAccount, assign_group, proxy_at, pick_unused_proxy, compute_assignments,
  assignments_for_unproxied, fetch_raw_proxies, ensure_all_proxied,
}
use provider_health_daemon.Proxies.Unused.{pick_unused_proxy-unused}
use provider_health_daemon.Usage.{
  LogEvent, Usage, request, done, other, daily_provider_usage, is_request, tokens_after,
  daily_provider_usage-sums,
}
use provider_health_daemon.ModelMapper.{RouterMap}

program : Unit {0}
unfolding get put elem any strip contains filter compute_assignments assignments_for_unproxied
    fetch_raw_proxies ensure_all_proxied pick_unused_proxy assign_group proxy_at
program = tt

abbrev account : String → String → String → ProxyAccount
account id provider url = record { id = id; provider = provider; proxy_url = url }

abbrev accounts : List ProxyAccount
accounts = account "1" "groq" "" ∷ account "2" "kr" "" ∷ account "3" "groq" "p" ∷ []

abbrev pool : List String
pool = "p" ∷ "q" ∷ "r" ∷ []

assigned :
    (compute_assignments accounts pool ≡ ("1", "p") ∷ ("3", "q") ∷ ("2", "r") ∷ [])
    × (assignments_for_unproxied accounts pool ≡ ("1", "q") ∷ ("2", "q") ∷ [])
    × (fetch_raw_proxies [] (none ∷ some (" 1.2.3.4:80 " ∷ "" ∷ "http://1.2.3.4:80" ∷ []) ∷ [])
        ≡ "http://1.2.3.4:80" ∷ [])
unfolding program
assigned = (refl, refl, refl)

pick_unused_proxy-unused_example :
    elem (pick_unused_proxy pool ("q" ∷ "p" ∷ []) 4) ("q" ∷ "p" ∷ []) ≡ false
unfolding elem any
pick_unused_proxy-unused_example = pick_unused_proxy-unused pool ("q" ∷ "p" ∷ []) 4 refl

log_events : List LogEvent
log_events = done 1 2 3 ∷ request (some "github|user_01") ∷ other ∷ done 10 20 0 ∷ request none ∷ []

daily_provider_usage-sums_example :
    (sum_by (λ (e : Usage). e.requests) (values (daily_provider_usage true (some log_events)))
      ≡ sum_by is_request log_events)
    × (sum_by (λ (e : Usage). e.tokens) (values (daily_provider_usage true (some log_events)))
        ≡ tokens_after none log_events)
daily_provider_usage-sums_example = daily_provider_usage-sums log_events

kiro : RouterMap
kiro = ("Kiro", ("llama", "groq/llama-70b") ∷ []) ∷ []
