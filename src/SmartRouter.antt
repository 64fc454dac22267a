-- ===== src/SmartRouter.antt =====
-- smart_router.py: which models are in the pool, and in which order they are tried.
pub mod Tables
pub mod Names
pub mod Score
pub mod Rank
pub mod Spread
pub mod Pool
