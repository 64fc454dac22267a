-- ===== src/Base/Rounding.antt =====
-- `round(x, n)` of a quotient, in units of the last digit that is kept.
use Prim.Native.Nat.{ℕ, suc, ◌*◌, ◌/◌, ◌%◌}
use mathlib.Core.Bool.{Bool}
use provider_health_daemon.Base.Tests.{ltb, ◌==◌, if◌then◌else◌}

-- Whether the quotient of two numbers, halfway between two whole ones, is rounded up.
abbrev pub Ties : Type 0
Ties = ℕ → ℕ → Bool

-- The whole number nearest to the quotient.
unfoldable pub round_div : Ties → ℕ → ℕ → ℕ
round_div ties n d =
    let twice = 2 * (n % d) in
    if ltb twice d
    then n / d
    else if twice == d
    then (if ties n d then suc (n / d) else n / d)
    else suc (n / d)

-- The averages of no requests are 0.
unfoldable pub average : Ties → ℕ → ℕ → ℕ
unfolding round_div
average ties n total = if total == 0 then 0 else round_div ties n total
