-- ===== src/Base/Clock.antt =====
-- time.Time and time.Duration, in nanoseconds. An instant counts from Go's zero Time.
use Prim.Native.Nat.{ℕ, ◌*◌}

abbrev pub Time : Type 0
Time = ℕ

abbrev Duration : Type 0
Duration = ℕ

abbrev pub second : Duration
second = 1000000000

abbrev pub minute : Duration
minute = 60 * second
