-- ===== src/Pve/Snapshot/Examples.antt =====
-- The theorems on snapshots at one with a running machine. Floating-point numbers are the native
-- numbers here, none of which is negative.
use ithiltir_node.Base.{
  ℕ, ◌≡◌, refl, Bool, true, false, none, some, Option, [], ◌∷◌, Text, codes, text_eq, int_eq, ℤ,
  pos,
}
use ithiltir_node.Pve.Snapshot.{Addr, Vm, Snapshot, is_vm, expire_vm}
use ithiltir_node.Pve.Snapshot.Sound.{IsExpired, expire_vm-is_vm}

abbrev parse_as_is : Text → Option Addr
parse_as_is s = some (record { zoned = false; is_global_unicast = true; unmapped = s })

abbrev atoi_zero : Text → Option ℤ
atoi_zero s = some (pos 0)

abbrev itoa_zero : ℤ → Text
itoa_zero n = codes "0"

abbrev never : ℕ → Bool
never n = false

abbrev one_vm : Vm ℕ
one_vm = record {
  collected_at = some 9;
  ttl_seconds = pos 90;
  ips_collected_at = some 9;
  ips_ttl_seconds = pos 90;
  ips = codes "10.0.0.2" ∷ codes "10.0.0.3" ∷ [];
  id = pos 100;
  name = codes "db";
  status = codes "running";
  qmp_status = codes "running";
  template = false;
  cpu = some 1;
  net_rate_limits = (codes "net0", 5) ∷ [];
  cpus = some (pos 2);
  memory = some (pos 7);
  memory_limit = none;
  disk_capacity = none;
  disk_read = none;
  disk_write = none;
  net_in = none;
  net_out = none;
  uptime = some (pos 60);
}

abbrev one_snapshot : Snapshot ℕ
one_snapshot = record {
  schema = pos 1;
  provider = codes "pve";
  host = codes "pve1";
  collected_at = 10;
  last_success_at = some 10;
  ttl_seconds = pos 90;
  status = codes "ok";
  error = [];
  vms = some (one_vm ∷ []);
}

expire_vm-is_vm_example :
    (is_vm parse_as_is atoi_zero itoa_zero never never never 10 (expire_vm 500000000000 one_vm)
      ≡ true)
    × (expire_vm 500000000000 (expire_vm 500000000000 one_vm) ≡ expire_vm 500000000000 one_vm)
    × IsExpired 500000000000 one_vm (expire_vm 500000000000 one_vm)
unfolding is_vm text_eq int_eq
expire_vm-is_vm_example =
    expire_vm-is_vm parse_as_is atoi_zero itoa_zero never never never 10 500000000000 one_vm refl
