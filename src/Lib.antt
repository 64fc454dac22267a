-- ===== src/Lib.antt =====
-- The provider health daemon stands between coding agents and several LLM gateways ("routers", such
-- as 9router, Kiro or OmniRoute), which in turn reach many providers. It watches the errors of the
-- providers, decides which of them rest and for how long, and chooses a router for each request.
--
-- The parts, and how they interact:
--
-- * Cooldown (cooldown.py, `CooldownCalculator`) turns a parsed error and the number of failures into
--   a duration. The registry calls it for every error.
-- * Aliases (provider_aliases.py, `normalize_provider`, and the denylist of config.py) gives each
--   provider its canonical name; every method of the registry that takes a name goes through it.
-- * Registry (health_registry.py, `HealthRegistry`) holds an entry for each provider and model, the
--   account pools, a circuit breaker for each provider and the global gate, and writes them to a file.
--   Registry/Circuit is the breaker and the window of rate limits; Registry/GlobalGate the gate;
--   Registry/Errors what a success and an error write (`mark_healthy`, `mark_error`,
--   `force_healthy`); Registry/Cleanup the sweep of `cleanup_expired`; Registry/Accounts the pools;
--   Registry/Probes the probes of disabled providers; Registry/Loading what `_load` makes of the file.
-- * Routers (router_registry.py, `RouterRegistry`) holds the downstream routers with the hysteresis
--   of their health. Routers/State is the file of their states, Routers/Catalog the models they serve.
-- * ModelIds (model_id_mapper.py, `ModelIdMapper`) maps the model ids of each router to canonical
--   ones and back.
-- * Policy (data_policy.py and kilo_policy.py) says which models may see which data.
-- * Selector (meta_router.py, `MetaRouterSelector`) chooses a router for a request with the three
--   before it: Selector for the eligible routers, Selector/Choice for the weighted round-robin, the
--   choice, the fallback and the counters.
-- * Alerts (alerter.py, `Alerter`) compares two looks at the registry and notifies of the changes.
-- * Metrics (metrics_store.py, `MetricsStore`) is the rolling window of requests and its sums by
--   provider; Metrics/Reports and Metrics/Access are the reports on it.
-- * SmartRouter (smart_router.py, `SmartRouter`) chooses a model. SmartRouter/Tables has its constants,
--   SmartRouter/Names what the id of a model tells, SmartRouter/Score the score of a provider from the
--   metrics, SmartRouter/Rank the ranking, which asks the registry of each model, SmartRouter/Spread
--   the choice among the best, and SmartRouter/Pool the caches, filters and sources of the models.
-- * Prober (model_prober.py, `ModelProber`) tests the models whose cooldown has passed, a few in each
--   cycle, and tells the registry.
-- * Usage (daily_usage.py) counts the requests of today, which the choice of SmartRouter reads.
-- * ModelMapper (model_mapper.py) resolves an alias to the model id of a router.
-- * Proxies (proxy_manager.py, `ProxyManager`) gives each account of the 9router a proxy.
-- * ErrorParser (error_parser.py) makes a parsed error of a status and a body: ErrorParser for the retry
--   hints, ErrorParser/Patterns the table of patterns, ErrorParser/Parsing the verdict, ErrorParser/Lines
--   the lines of the log. The calculator reads what it answers.
-- * Responses (proxy_handler.py, the response cache of `HealthProxyHandler`) holds the bodies that were
--   answered lately, by the digest of their request.
-- * Fallback (proxy_handler.py, `_global_fallback_chain` and `_next_fallback_model`) chooses the model that a
--   request falls back to: it composes the pool, the registry, the ranking, the selector and the policy.
-- * Base has the texts, lists, dictionaries and integers that the parts share, Clock the instants.
--
-- How the model corresponds to the code:
--
-- A method is a function from the state before to the state after and the answer. The methods of the
-- registries and of the selector run under a lock, so each is taken at one instant, its first argument
-- where it reads the clock; those of the other parts are taken the same way. An instant is a number of microseconds since the first instant of the year 1, and a stored ISO text is
-- a `Stamp`, an instant or a text that does not parse. The random jitter is an argument, in
-- millionths. A dictionary is a list of pairs in the order of insertion. `None` and a missing key are
-- `none`, and an exception is a value of the result. The registry's record has the memory (`health`)
-- and the file side by side; `writable` tells whether a write succeeds, and `_save` swallows a
-- failure.
--
-- A loop of the modelled code that runs over a list is structural recursion on it. The loop that makes
-- room in the response cache has as much fuel as there are entries, of which every round pops one; the
-- digits of a number have the number itself. The daemon's settings that the code takes from the environment have their default values.
--
-- A float of few decimals is a whole number of its last digit: scores are in tenths, rates in
-- ten-thousandths. Which way a tie of a rounding goes depends on how a float is stored, so it is an
-- argument of what rounds.
--
-- Not modelled: logging, the rotation of backups, locks and threads; texts outside ASCII in `lower`;
-- datetimes without a zone; negative weights and priorities; JSON of another shape than the program
-- writes. What a service, a database or the network answers is an argument. What a
-- regular expression of the error parser finds is an argument too. The HTTP server and its streams, the
-- dashboard, the daemon's loops and the rewriting of responses have no model here.
pub mod Base
pub mod Aliases
pub mod Clock
pub mod Cooldown
pub mod Registry
pub mod Routers
pub mod ModelIds
pub mod Policy
pub mod Selector
pub mod Alerts
pub mod Metrics
pub mod SmartRouter
pub mod Prober
pub mod Usage
pub mod ModelMapper
pub mod Proxies
pub mod Responses
pub mod ErrorParser
pub mod Fallback
mod Tests
