-- ===== src/Pve/Execute/Pause.antt =====
-- The pause after a failed lookup, and the bound on a result.
use ithiltir_node.Base.{
  ◌+◌, ◌*◌, ◌≤◌, ◌<◌, ◌≡◌, ◌≢◌, inl, inr, refl, ap, subst, ◌∙◌, true, false, Option, none, some,
  List, [], Text, ℤ, int_eq_iff, Time, second, ltb, length, Option-cases, arith,
}
use ithiltir_node.Pve.Query.{
  HistoryQuery, Err, busy, vm_not_found, unsupported, source_unavailable, deadline_exceeded,
  canceled, other,
}
use ithiltir_node.Pve.Execute.{
  lock_failed, taken, Work, Lock, held, history_max_bytes, failure_of, note_failure, is_noted,
  limited, looked_up, locked, first_error, unless_error, execute,
}

limited_short : (raw : Text) (error : Option Err) → length (limited raw error).0 ≤ history_max_bytes
unfolding limited
limited_short raw error = ground arith

locked_short :
    (w : Work) (q : HistoryQuery) (failures : List (ℤ × Time)) (l : Lock)
    → length (locked w q failures l).1 ≤ history_max_bytes
unfolding locked looked_up
locked_short w q failures lock_failed = ground arith
locked_short w q failures taken = ground arith
locked_short w q failures held = ground (arith, limited_short w.raw w.error)

-- A result of execute has at most 2 MiB.
execute_short :
    (w : Work) (q : HistoryQuery) (failures : List (ℤ × Time))
    → length (execute w q failures).1 ≤ history_max_bytes
unfolding execute unless_error
execute_short w q failures = elim (Option-cases (first_error w.slot w.ctx_error w.inventory)) [
  | inl e ↦ rw e (locked_short w q failures w.lock)
  | inr (x, e) ↦ rw e (ground arith)
]

execute_open :
    (w : Work) (q : HistoryQuery) (failures : List (ℤ × Time))
    → first_error w.slot w.ctx_error w.inventory ≡ none
    → w.lock ≡ held
    → failure_of q.vmid failures ≤ w.now
    → execute w q failures ≡ looked_up w q failures
unfolding execute unless_error locked
execute_open w q failures a b c =
    let passed : ltb w.now (failure_of q.vmid failures) ≡ false = ground arith in
    rw (a, b, passed) refl

execute_closed :
    (w : Work) (q : HistoryQuery) (failures : List (ℤ × Time))
    → first_error w.slot w.ctx_error w.inventory ≡ none
    → w.lock ≡ held
    → w.now < failure_of q.vmid failures
    → execute w q failures ≡ (failures, [], some source_unavailable)
unfolding execute unless_error locked
execute_closed w q failures a b c =
    let waits : ltb w.now (failure_of q.vmid failures) ≡ true = ground arith in
    rw (a, b, waits) refl

looked_up_noted :
    (w : Work) (q : HistoryQuery) (failures : List (ℤ × Time))
    → is_noted (looked_up w q failures).2 ≡ true
    → (looked_up w q failures).0 ≡ note_failure q.vmid (w.failed_at + 10 * second) failures
unfolding looked_up
looked_up_noted w q failures h = rw h refl

failure_of-note_failure :
    (id : ℤ) (t : Time) (failures : List (ℤ × Time))
    → failure_of id (note_failure id t failures) ≡ t
unfolding failure_of note_failure
failure_of-note_failure id t failures = rw ((int_eq_iff id id).1 refl) refl

other_noted : (e : Err) → e ≢ canceled → is_noted (some e) ≡ true
unfolding is_noted
other_noted busy h = refl
other_noted vm_not_found h = refl
other_noted unsupported h = refl
other_noted source_unavailable h = refl
other_noted deadline_exceeded h = refl
other_noted canceled h = absurd (h refl)
other_noted other h = refl

passes :
    (w : Work)
    → w.slot ≡ none
    → w.ctx_error ≡ none
    → w.inventory ≡ none
    → first_error w.slot w.ctx_error w.inventory ≡ none
unfolding first_error
passes w a b c = rw (a, b, c) refl

-- When a lookup that was made fails, other than by a cancellation, then until ten seconds later a
-- call for a query of the same machine that gets its slot, an inventory that has the machine and
-- its lock makes no lookup: it answers that the source is unavailable and leaves the failures.
pub execute_paused :
    (w w' : Work) (q q' : HistoryQuery) (failures : List (ℤ × Time)) (e : Err)
    → w.slot ≡ none
    → w.ctx_error ≡ none
    → w.inventory ≡ none
    → w.lock ≡ held
    → failure_of q.vmid failures ≤ w.now
    → (execute w q failures).2 ≡ some e
    → e ≢ canceled
    → q'.vmid ≡ q.vmid
    → w'.slot ≡ none
    → w'.ctx_error ≡ none
    → w'.inventory ≡ none
    → w'.lock ≡ held
    → w'.now < w.failed_at + 10 * second
    → let noted = (execute w q failures).0 in
      execute w' q' noted ≡ (noted, [], some source_unavailable)
execute_paused w w' q q' failures e s x i b c r ne same s' x' i' b' t =
    let a = passes w s x i in
    let a' = passes w' s' x' i' in
    let d : is_noted (execute w q failures).2 ≡ true = rw r (other_noted e ne) in
    let run = execute_open w q failures a b c in
    let noted : (execute w q failures).0
        ≡ note_failure q.vmid (w.failed_at + 10 * second) failures =
      ap (λ (r : List (ℤ × Time) × Text × Option Err). r.0) run
      ∙ looked_up_noted w q failures
          (subst (λ (r : List (ℤ × Time) × Text × Option Err). is_noted r.2 ≡ true) run d) in
    let until : failure_of q'.vmid (execute w q failures).0 ≡ w.failed_at + 10 * second =
      rw (noted, same) (failure_of-note_failure q.vmid (w.failed_at + 10 * second) failures) in
    execute_closed w' q' (execute w q failures).0 a' b' (rw until t)
