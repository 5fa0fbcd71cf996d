-- ===== src/Base/Time.antt =====
-- Times and durations in nanoseconds.
use Prim.Native.Nat.{ℕ, ◌-◌, ◌^◌, min}

-- The longest time.Duration, at which time.Sub saturates.
abbrev pub max_duration : ℕ
max_duration = 2 ^ 63 - 1

-- `a.Sub(b)`, with a negative difference as 0: its readers treat the two alike.
abbrev pub sub : ℕ → ℕ → ℕ
sub a b = min (a - b) max_duration

abbrev pub second : ℕ
second = 10 ^ 9

abbrev pub millisecond : ℕ
millisecond = 10 ^ 6
