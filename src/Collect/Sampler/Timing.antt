-- ===== src/Collect/Sampler/Timing.antt =====
-- The seconds and the intervals of a sampler.
use ithiltir_node.Base.{
  ℕ, ◌+◌, ◌*◌, ◌%◌, ◌^◌, ◌≤◌, ◌<◌, ◌≡◌, ◌⊎◌, refl, inl, inr, min, false, pos, wrap_int_small,
  second, leb, ◌==◌, Bool-cases, arith,
}
use ithiltir_node.Collect.Sampler.{report_secs, int_min, positive_intervals, intervals_of}

-- The report interval is the least number of seconds that covers the interval: it is not shorter,
-- and less than a second longer.
report_secs_covers :
    (d : ℕ) → (d ≤ report_secs (pos d) * second) × (report_secs (pos d) * second < d + second)
unfolding report_secs
report_secs_covers d = elim (Bool-cases (d % second == 0)) [
  | inl e ↦ rw e (ground arith, ground arith)
  | inr e ↦ rw e (ground arith, ground arith)
]

slow_cases : (n : ℕ) → (min (60 * second) (n * 20) ≡ 60 * second) ⊎ (n ≤ min (60 * second) (n * 20))
slow_cases n = elim (Bool-cases (leb (60 * second) (n * 20))) [
  | inl e ↦ inl (ground arith)
  | inr e ↦ inr (ground arith)
]

-- A report interval above 0 and below 2^58 nanoseconds gives intervals that a ticker takes: all
-- above 0, the middle one eight times the fast one, and the slow one at most a minute and, if not
-- a minute, at least as long as the fast one.
intervals_of-IsSound :
    (n : ℕ)
    → 0 < n
    → n < 2 ^ 58
    → (s : ℕ) × (intervals_of (pos n) ≡ record { fast = pos n; medium = pos (n * 8); slow = pos s })
      × (0 < s)
      × (s ≤ 60 * second)
      × ((s ≡ 60 * second) ⊎ (n ≤ s))
unfolding intervals_of positive_intervals int_min
intervals_of-IsSound n p h =
    let not_zero : (n == 0) ≡ false = ground arith in
    let eight = wrap_int_small (n * 8) (omega arith) in
    let twenty = wrap_int_small (n * 20) (omega arith) in
    (
      min (60 * second) (n * 20),
      rw (not_zero, eight, twenty) refl,
      omega arith,
      omega arith,
      slow_cases n,
    )
