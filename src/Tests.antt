-- ===== src/Tests.antt =====
-- The theorems at concrete inputs, and test data.
mod Breakers
mod Cooldowns
mod Health
mod Routers
mod Alerts
mod Loading
mod Metrics
mod SmartRouter
mod Probing
mod Proxying
mod Caching
mod Fallbacks
