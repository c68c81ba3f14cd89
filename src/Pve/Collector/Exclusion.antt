-- ===== src/Pve/Collector/Exclusion.antt =====
-- The workers of the collector: refreshes, choices and ends of samples in any order.
use ithiltir_node.Base.{
  ℕ, zero, suc, ◌+◌, ◌-◌, ◌%◌, ◌≤◌, ◌≡◌, ◌≢◌, inl, inr, refl, sym, ap, subst, ◌∙◌, Bool, true,
  false, not, some, List, [], ◌∷◌, Text, ℤ, int_eq, int_eq_iff, Time, Result, length, exists_in,
  keep, if◌then◌else◌, Bool-cases, ltb, min, arith,
}
use native.Mathlib.Nat.{mod-lt}
use ithiltir_node.Pve.Snapshot.{Vm}
use ithiltir_node.Pve.Collector.{
  VmConfig, Observation, Collector, all_ids, is_active, consider, scan, choose, sample_interval,
  Choice, take_choice, chosen, idle, panicked, new_collector, refresh_inventory, complete,
}
use ithiltir_node.Pve.Collector.Stock.{
  IsStocked, refresh-IsStocked, complete-IsStocked, take_choice-IsStocked,
}
use ithiltir_node.Pve.Collector.Turns.{at_index_total, Stocked-at, scan_at}

-- The machines that workers are sampling, and the end of one of these samples.
pub leave_job : ℤ → List ℤ → List ℤ
leave_job id [] = []
leave_job id (k ∷ jobs) = if int_eq id k then jobs else k ∷ leave_job id jobs

abbrev pub DistinctJobs : List ℤ → Type 0
DistinctJobs [] = Unit
DistinctJobs (id ∷ jobs) = (exists_in (int_eq id) jobs ≡ false) × DistinctJobs jobs

keep_all :
    (id : ℤ) (jobs : List ℤ)
    → exists_in (int_eq id) jobs ≡ false
    → keep (λ k. not (int_eq id k)) jobs ≡ jobs
keep_all id [] h = refl
keep_all id (k ∷ jobs) h = elim (Bool-cases (int_eq id k)) [
  | inl e ↦ ground arith
  | inr e ↦ rw e (ap (λ ks. k ∷ ks) (keep_all id jobs (ground arith)))
]

leave_lem :
    (id : ℤ) (jobs : List ℤ)
    → DistinctJobs jobs
    → keep (λ k. not (int_eq id k)) jobs ≡ leave_job id jobs
unfolding leave_job
leave_lem id [] d = refl
leave_lem id (k ∷ jobs) d = elim (Bool-cases (int_eq id k)) [
  | inl e ↦ rw e (
      keep_all id jobs
        (subst (λ i. exists_in (int_eq i) jobs ≡ false) (sym ((int_eq_iff id k).0 e)) d.0))
  | inr e ↦ rw e (ap (λ ks. k ∷ ks) (leave_lem id jobs d.1))
]

leave_absent :
    (x id : ℤ) (jobs : List ℤ)
    → exists_in (int_eq x) jobs ≡ false
    → exists_in (int_eq x) (leave_job id jobs) ≡ false
unfolding leave_job
leave_absent x id [] h = refl
leave_absent x id (k ∷ jobs) h = elim (Bool-cases (int_eq id k)) [
  | inl e ↦ rw e (ground arith)
  | inr e ↦ rw e (ground (arith, leave_absent x id jobs))
]

leave-DistinctJobs : (id : ℤ) (jobs : List ℤ) → DistinctJobs jobs → DistinctJobs (leave_job id jobs)
unfolding leave_job
leave-DistinctJobs id [] d = tt
leave-DistinctJobs id (k ∷ jobs) d = elim (Bool-cases (int_eq id k)) [
  | inl e ↦ rw e d.1
  | inr e ↦ rw e (leave_absent k id jobs d.0, leave-DistinctJobs id jobs d.1)
]

free_job :
    (id : ℤ) (active jobs : List ℤ)
    → active ≡ jobs
    → is_active id active ≡ false
    → exists_in (int_eq id) jobs ≡ false
unfolding is_active
free_job id active jobs a f = subst (λ ks. exists_in (int_eq id) ks ≡ false) a f

module _ {Float Rest Process : Type 0} where
  -- A choice is no nil entry and no machine that is being sampled.
  abbrev Fair : List ℤ → Choice Float Rest Process → Type 0
  Fair active (chosen i id entry) = is_active id active ≡ false
  Fair active (idle wait) = Unit
  Fair active panicked = ⊥

  consider-Fair :
      (now : Time) (active : List ℤ) (index : ℕ) (wait : Time) (id : ℤ)
      (entry : Observation Float Rest Process) (later : Time → Choice Float Rest Process)
      → ((w : Time) → Fair active (later w))
      → Fair active (consider now active index wait id (some entry) later)
  unfolding consider
  consider-Fair now active index wait id entry later h = elim (Bool-cases (is_active id active)) [
    | inl e ↦ rw e (h wait)
    | inr e ↦ elim (Bool-cases (ltb now entry.next)) [
      | inl f ↦ rw (e, f) (h (min wait (entry.next - now)))
      | inr f ↦ rw (e, f) e
    ]
  ]

  scan-Fair :
      (rounds offset : ℕ) (now wait : Time) (c : Collector Float Rest Process)
      → IsStocked c
      → rounds ≤ length (all_ids c.order)
      → Fair c.active (scan rounds offset now wait c)
  scan-Fair zero offset now wait c s h = unfold scan in tt
  scan-Fair (suc rounds) offset now wait c s h =
      let index = (c.cursor + offset) % length (all_ids c.order) in
      let (id, e) =
        at_index_total index (all_ids c.order) (mod-lt (c.cursor + offset) (omega arith)) in
      let (entry, f) = Stocked-at index (all_ids c.order) c.entries id s e in
      rw (scan_at rounds offset now wait c id entry e f) (
        consider-Fair now c.active index wait id entry (λ w. scan rounds (offset + 1) now w c)
          (λ w. scan-Fair rounds (offset + 1) now w c s (omega arith)))

  choose-Fair :
      (now : Time) (c : Collector Float Rest Process) → IsStocked c → Fair c.active (choose now c)
  unfolding choose
  choose-Fair now c s = scan-Fair (length (all_ids c.order)) 0 now sample_interval c s (omega arith)

module _ {Float Rest Process : Type 0} (new_process : Process) where
  -- `Reach c jobs`: the collector can come to the state `c` while workers sample the machines
  -- `jobs`.
  pub data Reach : Collector Float Rest Process → List ℤ → Type 0 where
    starts : Reach (new_collector new_process) []
    refreshes :
        {c : Collector Float Rest Process} {jobs : List ℤ}
        (found : Result Text (List (VmConfig Float Rest))) (now : Time)
        → Reach c jobs
        → Reach (refresh_inventory new_process found now c) jobs
    takes :
        {c : Collector Float Rest Process} {jobs : List ℤ} {i : ℕ} {id : ℤ}
        {entry : Observation Float Rest Process} (now : Time)
        → Reach c jobs
        → choose now c ≡ chosen i id entry
        → Reach (take_choice (chosen i id entry) c) (id ∷ jobs)
    finishes :
        {c : Collector Float Rest Process} {jobs : List ℤ} (stopping : Bool) (id : ℤ) (tag : ℕ)
        (vm : Vm Float) (process : Process) (started : Time)
        → Reach c jobs
        → exists_in (int_eq id) jobs ≡ true
        → Reach (complete stopping id tag vm process started c) (leave_job id jobs)

  refresh_active :
      (found : Result Text (List (VmConfig Float Rest))) (now : Time)
      (c : Collector Float Rest Process)
      → (refresh_inventory new_process found now c).active ≡ c.active
  unfolding refresh_inventory
  refresh_active (Result.err e) now c = refl
  refresh_active (Result.ok configs) now c = refl

  take_active :
      (i : ℕ) (id : ℤ) (entry : Observation Float Rest Process) (jobs : List ℤ)
      (c : Collector Float Rest Process)
      → c.active ≡ jobs
      → (take_choice (chosen i id entry) c).active ≡ id ∷ jobs
  unfolding take_choice
  take_active i id entry jobs c a = ap (λ ks. id ∷ ks) a

  complete_active :
      (stopping : Bool) (id : ℤ) (tag : ℕ) (vm : Vm Float) (process : Process) (started : Time)
      (jobs : List ℤ) (c : Collector Float Rest Process)
      → c.active ≡ jobs
      → DistinctJobs jobs
      → (complete stopping id tag vm process started c).active ≡ leave_job id jobs
  unfolding complete
  complete_active stopping id tag vm process started jobs c a d =
      ap (keep (λ k. not (int_eq id k))) a ∙ leave_lem id jobs d

  pub Reach_keeps :
      {c : Collector Float Rest Process} {jobs : List ℤ}
      → Reach c jobs
      → IsStocked c × (c.active ≡ jobs) × DistinctJobs jobs
  unfolding new_collector all_ids
  Reach_keeps starts = (tt, refl, tt)
  Reach_keeps (refreshes {c} {jobs} found now r) =
      let (s, a, d) = Reach_keeps r in
      (refresh-IsStocked new_process found now c s, refresh_active found now c ∙ a, d)
  Reach_keeps (takes {c} {jobs} {i} {id} {entry} now r e) =
      let (s, a, d) = Reach_keeps r in
      let free : is_active id c.active ≡ false = subst (Fair c.active) e (choose-Fair now c s) in
      (
        take_choice-IsStocked (chosen i id entry) c s,
        take_active i id entry jobs c a,
        (free_job id c.active jobs a free, d),
      )
  Reach_keeps (finishes {c} {jobs} stopping id tag vm process started r e) =
      let (s, a, d) = Reach_keeps r in
      (
        complete-IsStocked stopping id tag vm process started c s,
        complete_active stopping id tag vm process started jobs c a d,
        leave-DistinctJobs id jobs d,
      )

  -- However refreshes, choices and ends of samples interleave, no two workers sample one machine at
  -- a time, and next reads no nil entry.
  pub sampled_alone :
      {c : Collector Float Rest Process} {jobs : List ℤ}
      → Reach c jobs
      → DistinctJobs jobs × ((now : Time) → choose now c ≢ panicked)
  sampled_alone {c} r =
      let (s, _, d) = Reach_keeps r in (d, λ now e. subst (Fair c.active) e (choose-Fair now c s))
