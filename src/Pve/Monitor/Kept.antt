-- ===== src/Pve/Monitor/Kept.antt =====
-- What collectMonitor leaves as it was.
use ithiltir_node.Base.{
  ℕ, ◌≡◌, refl, either_branch, Bool, true, false, not, Option, none, some, Text, codes, text_eq, ℤ,
  wrap_int, is_positive, is_empty, and_then,
}
use ithiltir_node.Pve.Snapshot.{Vm}
use ithiltir_node.Pve.Monitor.{
  Answers, Balloon, inactive, failed_call, balloon, disk_totals, or_old, with_balloon, read_balloon,
  read_disks, read_running, read_status, collect_monitor,
}

-- The same machine in the same state with the same lifetime.
unfoldable pub IsSameVm : {Float : Type 0} → Vm Float → Vm Float → Type 0
IsSameVm vm next =
    (next.status ≡ vm.status) × (next.ttl_seconds ≡ vm.ttl_seconds) × (next.id ≡ vm.id)

module _ {Float : Type 0} (old : Vm Float) where
  abbrev Kept : Vm Float × Bool → Type 0
  Kept r = IsSameVm old r.0

  balloon_kept :
      (m t f : Option ℤ) (vm : Vm Float) → IsSameVm old vm → IsSameVm old (with_balloon m t f vm)
  unfolding with_balloon IsSameVm
  balloon_kept none t f vm h = h
  balloon_kept (some m) t f vm h = either_branch (IsSameVm old) (is_positive m) _ vm h h

  read_balloon-Kept : (b : Balloon) (vm : Vm Float) → IsSameVm old vm → Kept (read_balloon b vm)
  unfolding read_balloon
  read_balloon-Kept inactive vm h = h
  read_balloon-Kept failed_call vm h = h
  read_balloon-Kept (balloon m t f) vm h = balloon_kept m t f vm h

  read_disks-Kept :
      (totals : Option (ℕ × ℕ)) (b : Balloon) (vm : Vm Float)
      → IsSameVm old vm
      → Kept (read_disks totals b vm)
  unfolding read_disks IsSameVm
  read_disks-Kept none b vm h = h
  read_disks-Kept (some (r, w)) b vm h =
      read_balloon-Kept b
        (record vm { disk_read = some (wrap_int r); disk_write = some (wrap_int w) }) h

  read_running-Kept : (a : Answers) (vm : Vm Float) → IsSameVm old vm → Kept (read_running a vm)
  unfolding read_running IsSameVm
  read_running-Kept a vm h =
      read_disks-Kept (and_then a.disks disk_totals) a.ballooned
        (record vm { memory = or_old a.memory vm.memory }) h

  read_status-Kept :
      (status : Option Text) (a : Answers) (vm : Vm Float)
      → IsSameVm old vm
      → Kept (read_status status a vm)
  unfolding read_status IsSameVm
  read_status-Kept none a vm h = h
  read_status-Kept (some status) a vm h =
      let asked = record vm { qmp_status = status } in
      either_branch Kept (is_empty status) (vm, false) _ h
        (either_branch Kept (not (text_eq status (codes "running"))) (asked, true) _ h
          (read_running-Kept a asked h))

  collected-Kept : (a : Answers) (vm : Vm Float) → IsSameVm old vm → Kept (collect_monitor a vm)
  unfolding collect_monitor
  collected-Kept a vm h =
      either_branch Kept a.opened _ (vm, false) (read_status-Kept a.status a vm h) h

-- collectMonitor keeps the id, the status and the lifetime of the machine.
pub collect_monitor_kept :
    {Float : Type 0} (a : Answers) (vm : Vm Float) → IsSameVm vm (collect_monitor a vm).0
unfolding IsSameVm
collect_monitor_kept a vm = collected-Kept vm a vm (refl, refl, refl)
