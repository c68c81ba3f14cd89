-- ===== src/Pve/Guests/Examples.antt =====
-- The theorems on guest agents at two machines. Floating-point numbers are native numbers here.
use ithiltir_node.Base.{
  ℕ, ◌+◌, true, false, none, some, List, [], ◌∷◌, Text, codes, pos, Time, Result, ok, err,
}
use ithiltir_node.Pve.Snapshot.{Vm}
use ithiltir_node.Pve.Guests.{GuestState, GuestTarget, Lookup}

abbrev some_target : GuestTarget
some_target = record { id = pos 100; start = 1; agent = codes "1" }

abbrev idle_state : GuestState
idle_state = record {
  host = codes "pve1";
  next = 0;
  failures = pos 0;
  start = 1;
  agent = codes "1";
  collected_at = 0;
  ips = [];
}

abbrev unanswered : Time → Lookup
unanswered now = record {
  now = now;
  done_before = false;
  reserved = true;
  answer = err (codes "timeout");
  done_after = false;
  finished = now + 3;
  stored = true;
}

abbrev late : Time
late = 70000000000

abbrev two_targets : List (GuestTarget × Result Text GuestState)
two_targets =
    (some_target, ok (record idle_state { failures = pos 2 }))
    ∷ (some_target, ok (record idle_state { collected_at = 5 }))
    ∷ []

abbrev running_vm : Vm ℕ
running_vm = record {
  collected_at = some 9;
  ttl_seconds = pos 90;
  ips_collected_at = none;
  ips_ttl_seconds = pos 0;
  ips = [];
  id = pos 100;
  name = codes "db";
  status = codes "running";
  qmp_status = codes "running";
  template = false;
  cpu = none;
  net_rate_limits = [];
  cpus = none;
  memory = none;
  memory_limit = none;
  disk_capacity = none;
  disk_read = none;
  disk_write = none;
  net_in = none;
  net_out = none;
  uptime = some (pos 0);
}

abbrev read_state : Result Text GuestState
read_state = ok (record idle_state { collected_at = 9; ips = codes "10.0.0.2" ∷ [] })
