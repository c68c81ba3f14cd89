-- ===== src/Push/Session/Delay.antt =====
-- The pauses between sessions that fail.
use ithiltir_node.Base.{
  ℕ, zero, suc, ◌+◌, ◌*◌, ◌^◌, ◌≤◌, ◌<◌, ◌≡◌, refl, ap, ◌∙◌, min, Time, second, minute, arith,
}
use ithiltir_node.Push.Session.{next_delay, jitter_bound}

-- The delay of the pause after `n + 1` sessions in a row that failed within a minute.
abbrev delay_after : ℕ → Time
delay_after zero = second
delay_after (suc n) = next_delay (delay_after n)

double_min : (a b p : ℕ) → a ≡ min p b → second ≤ p → min (a * 2) b ≡ min (2 * p) b
double_min a b p h k = ground arith

power_pos : (n : ℕ) → second ≤ 2 ^ n * second
power_pos zero = omega arith
power_pos (suc n) = ground (arith, power_pos n)

delay_form : (n : ℕ) → delay_after n ≡ min (2 ^ n * second) minute
unfolding next_delay
delay_form zero = refl
delay_form (suc n) =
    double_min (delay_after n) minute (2 ^ n * second) (delay_form n) (power_pos n)
    ∙ ap (λ p. min p minute) (grind arith)

-- After sessions that failed at once the pause doubles from a second up to a minute; with its random
-- share it is at most 75 seconds.
delay_after_lem :
    (n r : ℕ)
    → r < jitter_bound (delay_after n)
    → (delay_after n ≡ min (2 ^ n * second) minute) × (delay_after n + r ≤ 75 * second)
unfolding jitter_bound
delay_after_lem n r h = (delay_form n, omega (arith, delay_form n))
