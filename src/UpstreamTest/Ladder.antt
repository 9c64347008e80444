-- ===== src/UpstreamTest/Ladder.antt =====
-- The labels of the ladder (relativeTime of web/src/lib/upstream-test.ts).
use porymcp.Base.{ℕ, ◌+◌, ◌*◌, ◌≤◌, ◌<◌, arith}
use porymcp.UpstreamTest.{
  Ago, just_now, ago_of, TimeUnit, minutes, hours, days, months, years, length_of, rung, rounded,
  second,
}

-- The counts that a unit is shown with.
abbrev pub Counts : TimeUnit → ℕ → Type 0
Counts minutes n = n < 60
Counts hours n = n < 24
Counts days n = n < 30
Counts months n = n < 12
Counts years n = 1 ≤ n

-- A label that is true of an age: now, for less than 45 seconds, or a count that is off by half a
-- unit at most, and that is less than one of the next unit.
abbrev pub IsTrueOf : ℕ → Ago → Type 0
IsTrueOf ms just_now = ms < 45 * second
IsTrueOf ms (ago_of n unit) =
    (1 ≤ n)
    × Counts unit n
    × (2 * ms < 2 * n * length_of unit + length_of unit + 1)
    × (2 * n * length_of unit ≤ 2 * ms + length_of unit)

-- Every age has a label that is true of it: now, for less than 45 seconds, or a count that is off
-- by half a unit at most and stays below one of the next unit.
pub rung-IsTrueOf : (ms : ℕ) → IsTrueOf ms (rung ms)
unfolding rung rounded
rung-IsTrueOf ms = ground arith
