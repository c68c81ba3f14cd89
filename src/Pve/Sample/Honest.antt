-- ===== src/Pve/Sample/Honest.antt =====
-- What a sample claims of a machine.
use ithiltir_node.Base.{
  ℕ, ◌≡◌, ◌≢◌, ◌⊎◌, refl, inl, inr, ◌∙◌, true, some, either_branch, codes, text_eq, ℤ, pos,
  int_eq_iff, Bool-cases, Option-cases, arith,
}
use ithiltir_node.Pve.Snapshot.{Vm}
use ithiltir_node.Pve.Monitor.{collect_monitor}
use ithiltir_node.Pve.Monitor.Kept.{IsSameVm, collect_monitor_kept}
use ithiltir_node.Pve.Process.{Process, no_process, ProcessRead, gone, failed_read, found, is_same}
use ithiltir_node.Pve.Sample.{
  Reading, net_totals, with_net, with_usage, unknown_vm, stopped_vm, running_vm, sample_after,
  sample_before, sample_vm,
}

-- This machine, and the zero process.
IsPair : {Float : Type 0} → Vm Float → Vm Float × Process → Type 0
IsPair vm result =
    (result.0 ≡ vm) × (result.1 ≡ record { pid = pos 0; start = 0; ticks = 0; at = 0 })

-- A sample that claims no more than was seen: the machine is stopped if its process was gone; or
-- it is unknown, with nothing but the configuration; or the same process was there before and
-- after the monitor was read, and it runs. It is dated at its end.
pub IsHonest : {Float : Type 0} → Reading Float → Vm Float → Vm Float × Process → Type 0
IsHonest r vm result =
    ((r.before ≡ gone)
      × IsPair
          (record vm {
            status = codes "stopped";
            qmp_status = codes "stopped";
            ttl_seconds = pos 90;
            collected_at = some r.now;
            uptime = some (pos 0);
          })
          result)
    ⊎ ((r.before ≢ gone)
        × IsPair
            (record vm {
              status = codes "unknown";
              ttl_seconds = pos 90;
              collected_at = some r.now;
            })
            result)
    ⊎ ((before : Process) × (after : Process) × (r.before ≡ found before)
        × (r.after ≡ found after)
        × (before.pid ≡ after.pid)
        × (before.start ≡ after.start)
        × (result.1 ≡ after)
        × (result.0.collected_at ≡ some r.now)
        × (result.0.status ≡ codes "running")
        × (result.0.ttl_seconds ≡ pos 90)
        × (result.0.id ≡ vm.id))

is_same_lem : (p q : Process) → is_same p q ≡ true → (p.pid ≡ q.pid) × (p.start ≡ q.start)
unfolding is_same
is_same_lem p q h = ((int_eq_iff p.pid q.pid).0 (ground arith), ground arith)

module _ {Float : Type 0} (ratio : ℕ → ℕ → ℤ → Float) (since : Float → ℕ → ℤ) where
  usage_kept :
      (previous after : Process) (r : Reading Float) (vm : Vm Float)
      → IsSameVm vm (with_usage ratio since previous after r vm)
  unfolding with_usage with_net IsSameVm
  usage_kept previous after r vm = elim (Option-cases (net_totals r.nics (pos 0) (pos 0))) [
    | inl e ↦ rw e (refl, refl, refl)
    | inr (t, e) ↦ rw e (refl, refl, refl)
  ]

  running_kept :
      (previous after : Process) (r : Reading Float) (vm : Vm Float)
      → IsSameVm vm (running_vm ratio since previous after r vm)
  unfolding running_vm IsSameVm
  running_kept previous after r vm =
      either_branch (IsSameVm vm) (text_eq vm.qmp_status (codes "running")) _ vm
        (usage_kept previous after r vm) (refl, refl, refl)

  sample_after-IsHonest :
      (previous before : Process) (a : ProcessRead) (r : Reading Float) (vm seen : Vm Float)
      → r.before ≡ found before
      → r.after ≡ a
      → (seen.status ≡ codes "running") × (seen.ttl_seconds ≡ pos 90) × (seen.id ≡ vm.id)
      → IsHonest r vm (sample_after ratio since previous before a r vm seen)
  unfolding sample_after running_vm IsHonest IsPair IsSameVm unknown_vm no_process
  sample_after-IsHonest previous before gone r vm seen b e m =
      inr (inl (λ g. cc (b, g), (refl, refl)))
  sample_after-IsHonest previous before failed_read r vm seen b e m =
      inr (inl (λ g. cc (b, g), (refl, refl)))
  sample_after-IsHonest previous before (found after) r vm seen b e m =
      elim (Bool-cases (is_same before after)) [
        | inl s ↦
            let (p, q) = is_same_lem before after s in
            let (status, ttl, id) = running_kept previous after r seen in
            rw s
              (inr (inr (before, after, b, e, p, q, refl, refl, status ∙ m.0, ttl ∙ m.1, id ∙ m.2)))
        | inr s ↦ rw s (inr (inl (λ g. cc (b, g), (refl, refl))))
      ]

  sample_before-IsHonest :
      (previous : Process) (b : ProcessRead) (r : Reading Float) (vm : Vm Float)
      → r.before ≡ b
      → IsHonest r vm (sample_before ratio since previous b r vm)
  unfolding sample_before IsHonest IsPair IsSameVm unknown_vm stopped_vm no_process
  sample_before-IsHonest previous gone r vm e = inl (e, (refl, refl))
  sample_before-IsHonest previous failed_read r vm e = inr (inl (λ g. cc (e, g), (refl, refl)))
  sample_before-IsHonest previous (found before) r vm e =
      let asked = record vm { status = codes "running"; ttl_seconds = pos 90 } in
      let (status, ttl, id) = collect_monitor_kept r.monitor asked in
      sample_after-IsHonest previous before r.after r vm (collect_monitor r.monitor asked).0 e refl
        (status, ttl, id)

  -- Whatever a sample of a machine meets, it claims no more than was seen: the machine is stopped
  -- only if its process was gone; it runs, with a lifetime of 90 seconds, only if a process with the
  -- same id and the same start was found before and after the monitor was read, and that one is
  -- kept for the next sample; else it is unknown, with the data of the configuration alone and no
  -- process. The result is dated at the end of the sample.
  pub sample_vm-IsHonest :
      (previous : Process) (r : Reading Float) (vm : Vm Float)
      → IsHonest r vm (sample_vm ratio since previous r vm)
  unfolding sample_vm
  sample_vm-IsHonest previous r vm = sample_before-IsHonest previous r.before r vm refl
