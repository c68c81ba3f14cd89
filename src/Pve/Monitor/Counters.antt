-- ===== src/Pve/Monitor/Counters.antt =====
-- The counters that collectMonitor sets.
use ithiltir_node.Base.{
  either_branch, ℕ, ◌^◌, ◌<◌, Bool, true, false, not, Option, none, some, Text, codes, text_eq, ℤ,
  pos, negsuc, wrap_int, wrap_int_small, is_positive, is_empty, and_then,
}
use ithiltir_node.Pve.Snapshot.{Vm}
use ithiltir_node.Pve.Monitor.{
  Answers, Balloon, inactive, failed_call, balloon, disk_totals, used_memory, or_old, with_balloon,
  read_balloon, read_disks, read_running, read_status, collect_monitor,
}

-- A counter that is missing or not negative.
IsCounted : Option ℤ → Type 0
IsCounted none = Unit
IsCounted (some (pos n)) = Unit
IsCounted (some (negsuc n)) = ⊥

AreCounted : {Float : Type 0} → Vm Float → Type 0
AreCounted vm =
    IsCounted vm.memory
    × IsCounted vm.memory_limit
    × IsCounted vm.disk_read
    × IsCounted vm.disk_write

AreSmall : Option (ℕ × ℕ) → Type 0
AreSmall none = Unit
AreSmall (some (r, w)) = (r < 2 ^ 63) × (w < 2 ^ 63)

or_old-IsCounted : (n : Option ℕ) (old : Option ℤ) → IsCounted old → IsCounted (or_old n old)
unfolding or_old IsCounted
or_old-IsCounted none old h = h
or_old-IsCounted (some n) old h = tt

wrap_int-IsCounted : (n : ℕ) → n < 2 ^ 63 → IsCounted (some (wrap_int n))
unfolding IsCounted
wrap_int-IsCounted n h = rw (wrap_int_small n h) tt

module _ {Float : Type 0} where
  abbrev Kept : Vm Float × Bool → Type 0
  Kept r = AreCounted r.0

  with_balloon-counted :
      (m t f : Option ℤ) (vm : Vm Float) → AreCounted vm → AreCounted (with_balloon m t f vm)
  unfolding with_balloon AreCounted IsCounted
  with_balloon-counted none t f vm h = h
  with_balloon-counted (some (negsuc n)) t f vm h = h
  with_balloon-counted (some (pos n)) t f vm h =
      either_branch AreCounted (is_positive (pos n))
        (record vm { memory_limit = some (pos n); memory = or_old (used_memory t f) vm.memory }) vm
        (or_old-IsCounted (used_memory t f) vm.memory h.0, tt, h.2, h.3) h

  read_balloon-counted :
      (b : Balloon) (vm : Vm Float) → AreCounted vm → AreCounted (read_balloon b vm).0
  unfolding read_balloon
  read_balloon-counted inactive vm h = h
  read_balloon-counted failed_call vm h = h
  read_balloon-counted (balloon m t f) vm h = with_balloon-counted m t f vm h

  read_disks-counted :
      (totals : Option (ℕ × ℕ)) (b : Balloon) (vm : Vm Float)
      → AreSmall totals
      → AreCounted vm
      → AreCounted (read_disks totals b vm).0
  unfolding read_disks AreCounted AreSmall
  read_disks-counted none b vm s h = h
  read_disks-counted (some (r, w)) b vm s h =
      read_balloon-counted b
        (record vm { disk_read = some (wrap_int r); disk_write = some (wrap_int w) })
        (h.0, h.1, wrap_int-IsCounted r s.0, wrap_int-IsCounted w s.1)

  read_running-counted :
      (a : Answers) (vm : Vm Float)
      → AreSmall (and_then a.disks disk_totals)
      → AreCounted vm
      → AreCounted (read_running a vm).0
  unfolding read_running AreCounted
  read_running-counted a vm s h =
      read_disks-counted (and_then a.disks disk_totals) a.ballooned
        (record vm { memory = or_old a.memory vm.memory }) s
        (or_old-IsCounted a.memory vm.memory h.0, h.1, h.2, h.3)

  read_status-counted :
      (status : Option Text) (a : Answers) (vm : Vm Float)
      → AreSmall (and_then a.disks disk_totals)
      → AreCounted vm
      → AreCounted (read_status status a vm).0
  unfolding read_status AreCounted
  read_status-counted none a vm s h = h
  read_status-counted (some status) a vm s h =
      let asked = record vm { qmp_status = status } in
      either_branch Kept (is_empty status) (vm, false) _ h
        (either_branch Kept (not (text_eq status (codes "running"))) (asked, true) _ h
          (read_running-counted a asked s h))

  -- Whatever a monitor answers, on every way out of collectMonitor, the memory, its limit and the
  -- disk counters stay missing or not negative, as long as the sums over the disks are below 2^63.
  collect_monitor-counted :
      (a : Answers) (vm : Vm Float)
      → AreSmall (and_then a.disks disk_totals)
      → AreCounted vm
      → AreCounted (collect_monitor a vm).0
  unfolding collect_monitor
  collect_monitor-counted a vm s h =
      either_branch Kept a.opened _ (vm, false) (read_status-counted a.status a vm s h) h
