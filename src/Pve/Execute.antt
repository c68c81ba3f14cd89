-- ===== src/Pve/Execute.antt =====
-- historyCache.execute of internal/pve/history.go: the lookup of one history request, with its slot,
-- its lock and the pause after a failure. The failures are a map from a machine to an instant.
pub mod Pause
mod Examples
use ithiltir_node.Base.{
  ℕ, ◌+◌, ◌*◌, Bool, true, false, not, Option, none, some, List, [], ◌∷◌, keep, Text, ℤ, int_eq,
  Time, second, ltb, leb, if◌then◌else◌, length,
}
use ithiltir_node.Pve.Query.{HistoryQuery, Err, busy, source_unavailable, canceled, other}

abbrev pub history_max_bytes : ℕ
history_max_bytes = 2097152

-- guestLock: an error, a lock that another holds, or the lock.
pub data Lock : Type 0 where
  lock_failed taken held : Lock

-- What one call meets: how waiting for a slot ends, and what the collector, the lock, the clock and
-- `lookup` answer. `failed_at` is the clock when a failure is noted.
pub record Work : Type 0 where
  pub slot : Option Err
  pub ctx_error : Option Err
  pub inventory : Option Err
  pub lock : Lock
  pub now : Time
  pub raw : Text
  pub error : Option Err
  pub failed_at : Time

abbrev Failures : Type 0
Failures = List (ℤ × Time)

-- `h.failures[id]`; the zero time if there is none.
pub failure_of : ℤ → List (ℤ × Time) → Time
failure_of id [] = 0
failure_of id ((k, t) ∷ failures) = if int_eq k id then t else failure_of id failures

pub note_failure : ℤ → Time → List (ℤ × Time) → List (ℤ × Time)
note_failure id t failures = (id, t) ∷ keep (λ e. not (int_eq e.0 id)) failures

-- Whether an error is noted: any but a cancellation.
pub is_noted : Option Err → Bool
is_noted none = false
is_noted (some canceled) = false
is_noted (some _) = true

-- A result that is too long is an error.
pub limited : Text → Option Err → Text × Option Err
limited raw error = if leb (length raw) history_max_bytes then (raw, error) else ([], some other)

pub looked_up : Work → HistoryQuery → List (ℤ × Time) → List (ℤ × Time) × Text × Option Err
unfolding limited is_noted note_failure
looked_up w q failures =
    let (raw, error) = limited w.raw w.error in
    (
      if is_noted error then note_failure q.vmid (w.failed_at + 10 * second) failures else failures,
      raw,
      error,
    )

pub locked : Work → HistoryQuery → List (ℤ × Time) → Lock → List (ℤ × Time) × Text × Option Err
unfolding looked_up failure_of
locked w q failures lock_failed = (failures, [], some other)
locked w q failures taken = (failures, [], some busy)
locked w q failures held =
    if ltb w.now (failure_of q.vmid failures)
    then (failures, [], some source_unavailable)
    else looked_up w q failures

-- The checks before the lock, in their order.
pub first_error : Option Err → Option Err → Option Err → Option Err
first_error (some e) _ _ = some e
first_error none (some e) _ = some e
first_error none none i = i

pub unless_error :
    Work → HistoryQuery → List (ℤ × Time) → Option Err → List (ℤ × Time) × Text × Option Err
unfolding locked
unless_error w q failures (some e) = (failures, [], some e)
unless_error w q failures none = locked w q failures w.lock

-- execute: the failures, the result and the error.
pub execute : Work → HistoryQuery → List (ℤ × Time) → List (ℤ × Time) × Text × Option Err
unfolding unless_error first_error
execute w q failures = unless_error w q failures (first_error w.slot w.ctx_error w.inventory)
