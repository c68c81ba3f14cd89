-- ===== src/Pve/Sample/Examples.antt =====
-- A sample of a machine.
use ithiltir_node.Base.{ℕ, true, false, none, some, [], ◌∷◌, codes, ℤ, pos}
use ithiltir_node.Pve.Snapshot.{Vm}
use ithiltir_node.Pve.Monitor.{inactive}
use ithiltir_node.Pve.Process.{Process, found}
use ithiltir_node.Pve.Sample.{Reading, sample_vm}
use ithiltir_node.Pve.Sample.Honest.{IsHonest, sample_vm-IsHonest}

abbrev qemu : Process
qemu = record { pid = pos 42; start = 777; ticks = 42; at = 1000 }

abbrev machine : Vm ℕ
machine = record {
  collected_at = none;
  ttl_seconds = pos 0;
  ips_collected_at = none;
  ips_ttl_seconds = pos 0;
  ips = [];
  id = pos 100;
  name = codes "db";
  status = codes "stopped";
  qmp_status = [];
  template = false;
  cpu = none;
  net_rate_limits = [];
  cpus = some (pos 2);
  memory = none;
  memory_limit = none;
  disk_capacity = none;
  disk_read = none;
  disk_write = none;
  net_in = none;
  net_out = none;
  uptime = none;
}

abbrev reading : Reading ℕ
reading = record {
  before = found qemu;
  after = found qemu;
  monitor = record {
    opened = true;
    status = some (codes "running");
    memory = some 7;
    disks = some [];
    ballooned = inactive;
  };
  host_uptime = some 9;
  nics = (some (pos 1), some (pos 2)) ∷ [];
  now = 2000;
}

abbrev zero_ratio : ℕ → ℕ → ℤ → ℕ
zero_ratio ticks elapsed cpus = 0

abbrev no_time : ℕ → ℕ → ℤ
no_time uptime start = pos 0

sample_vm-IsHonest_example :
    IsHonest reading machine (sample_vm zero_ratio no_time qemu reading machine)
sample_vm-IsHonest_example = sample_vm-IsHonest zero_ratio no_time qemu reading machine
