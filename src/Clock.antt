-- ===== src/Clock.antt =====
-- Instants and durations. An instant is a count of microseconds since 0001-01-01T00:00Z, the first
-- that a `datetime` can hold; a duration is a count of microseconds, the resolution of `timedelta`.
use provider_health_daemon.Base.{ℕ, ◌*◌}

-- What an ISO text stands for: an instant, or nothing that `datetime.fromisoformat` accepts.
pub data Stamp : Type 0 where
  at : ℕ → Stamp
  malformed : Stamp

abbrev pub seconds : ℕ → ℕ
seconds n = n * 1_000_000

abbrev pub minutes : ℕ → ℕ
minutes n = n * 60_000_000

abbrev pub hours : ℕ → ℕ
hours n = n * 3_600_000_000

abbrev pub days : ℕ → ℕ
days n = n * 86_400_000_000

-- The first instants of the years 1970 and 2101.
abbrev pub year_1970 : ℕ
year_1970 = days 719_162

abbrev pub year_2101 : ℕ
year_2101 = days 767_009
