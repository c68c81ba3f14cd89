-- ===== src/Pve/Sample.antt =====
-- internal/pve/local.go: sampleVM, one sample of a machine, with cpuRatio. What the monitor answers is that of Pve.Monitor, and the arithmetic on float64 is a parameter.
pub mod Honest
mod Examples
use ithiltir_node.Base.{
  ℕ, ◌+◌, ◌-◌, ◌||◌, not, Option, none, some, List, [], ◌∷◌, codes, text_eq, ℤ, pos, negsuc,
  wrap_int, int_bits, Time, ltb, leb, ◌==◌, if◌then◌else◌,
}
use ithiltir_node.Pve.Snapshot.{Vm}
use ithiltir_node.Pve.Process.{Process, no_process, ProcessRead, gone, failed_read, found, is_same}
use ithiltir_node.Pve.Monitor.{Answers, collect_monitor}

add_int : ℤ → ℤ → ℤ
unfolding int_bits
add_int a b = wrap_int (int_bits a + int_bits b)

-- The loop over the interfaces, of what interfaceBytes gives for rx and tx: received and
-- transmitted, as the machine sees them; `none` is the error.
pub net_totals : List (Option ℤ × Option ℤ) → ℤ → ℤ → Option (ℤ × ℤ)
unfolding add_int
net_totals [] received transmitted = some (received, transmitted)
net_totals ((some rx, some tx) ∷ nics) received transmitted =
    net_totals nics (add_int received tx) (add_int transmitted rx)
net_totals ((some rx, none) ∷ nics) received transmitted = none
net_totals ((none, tx) ∷ nics) received transmitted = none

-- What sampleVM meets: the reads of the process before and after, the monitor between them,
-- the first number of /proc/uptime, the counters of the interfaces, and the time at the end.
pub record Reading (Float : Type 0) : Type 0 where
  pub before : ProcessRead
  pub after : ProcessRead
  pub monitor : Answers
  pub host_uptime : Option Float
  pub nics : List (Option ℤ × Option ℤ)
  pub now : Time

module _ {Float : Type 0} where
  -- The machine of an unknown state.
  pub unknown_vm : Time → Vm Float → Vm Float
  unknown_vm now vm = record vm {
    status = codes "unknown";
    ttl_seconds = pos 90;
    collected_at = some now;
  }

  pub stopped_vm : Time → Vm Float → Vm Float
  stopped_vm now vm = record vm {
    status = codes "stopped";
    qmp_status = codes "stopped";
    ttl_seconds = pos 90;
    collected_at = some now;
    uptime = some (pos 0);
  }

  pub with_net : Option (ℤ × ℤ) → Vm Float → Vm Float
  with_net none vm = vm
  with_net (some (received, transmitted)) vm = record vm {
    net_in = some received;
    net_out = some transmitted;
  }

at_least_zero : ℤ → ℤ
at_least_zero (pos n) = pos n
at_least_zero (negsuc n) = pos 0

-- `ratio` is the quotient of ticks, nanoseconds and CPUs in cpuRatio, and `since` the int64 of
-- the uptime less a start in ticks.
module _ {Float : Type 0} (ratio : ℕ → ℕ → ℤ → Float) (since : Float → ℕ → ℤ) where
  -- cpuRatio.
  cpu_ratio : Process → Process → ℤ → Option Float
  unfolding is_same
  cpu_ratio before after cpus =
      if not (is_same before after)
        || before.at == 0
        || leb after.at before.at
        || ltb after.ticks before.ticks
      then none
      else some (ratio (after.ticks - before.ticks) (after.at - before.at) cpus)

  -- `*vm.CPUs`, which parseConfig sets.
  cpu_of : Process → Process → Option ℤ → Option Float
  unfolding cpu_ratio
  cpu_of before after none = none
  cpu_of before after (some cpus) = cpu_ratio before after cpus

  uptime_of : Option Float → ℕ → Option ℤ → Option ℤ
  unfolding at_least_zero
  uptime_of none start old = old
  uptime_of (some f) start old = some (at_least_zero (since f start))

  -- What sampleVM adds if the monitor says that the machine runs.
  pub with_usage : Process → Process → Reading Float → Vm Float → Vm Float
  unfolding cpu_of uptime_of net_totals with_net
  with_usage previous after r vm = with_net (net_totals r.nics (pos 0) (pos 0)) (record vm {
    cpu = cpu_of previous after vm.cpus;
    uptime = uptime_of r.host_uptime after.start vm.uptime;
  })

  -- The machine once the monitor was read.
  pub running_vm : Process → Process → Reading Float → Vm Float → Vm Float
  unfolding with_usage
  running_vm previous after r vm =
      record (if text_eq vm.qmp_status (codes "running")
        then with_usage previous after r vm
        else vm) { collected_at = some r.now }

  -- After the second read, of the machine of the configuration and the one with its monitor.
  pub sample_after :
      Process → Process → ProcessRead → Reading Float → Vm Float → Vm Float → Vm Float × Process
  unfolding unknown_vm running_vm is_same
  sample_after previous before gone r vm seen = (unknown_vm r.now vm, no_process)
  sample_after previous before failed_read r vm seen = (unknown_vm r.now vm, no_process)
  sample_after previous before (found after) r vm seen =
      if is_same before after
      then (running_vm previous after r seen, after)
      else (unknown_vm r.now vm, no_process)

  pub sample_before : Process → ProcessRead → Reading Float → Vm Float → Vm Float × Process
  unfolding stopped_vm sample_after
  sample_before previous gone r vm = (stopped_vm r.now vm, no_process)
  sample_before previous failed_read r vm = (unknown_vm r.now vm, no_process)
  sample_before previous (found before) r vm =
      sample_after previous before r.after r vm
        (collect_monitor r.monitor (record vm { status = codes "running"; ttl_seconds = pos 90 })).0

  -- sampleVM, with the machine of its configuration.
  pub sample_vm : Process → Reading Float → Vm Float → Vm Float × Process
  unfolding sample_before
  sample_vm previous r vm = sample_before previous r.before r vm
