-- ===== src/Collect/Examples.antt =====
-- The theorems on the sampling of the host at concrete probes, devices and counters.
use ithiltir_node.Base.{
  ℕ, ◌≤◌, ◌≡◌, Bool, true, none, some, List, [], ◌∷◌, Text, codes, length, keep,
}
use ithiltir_node.Collect.Usage.{UsageEntry, new_entry, read, time_out, waits}
use ithiltir_node.Collect.Usage.Probes.{at_once, Reach, starts, reads, fires, newest, one_probe}
use ithiltir_node.Collect.Disks.{BaseIo, apply_roles, score_of}
use ithiltir_node.Collect.Disks.Roles.{nth, is_primary, with_role, Most, apply_roles_lem}
use ithiltir_node.Collect.Counters.{NetCounter}

abbrev stuck_entry : UsageEntry ℕ
stuck_entry = record { cached = none; probe = some 0; stuck = true }

hung_reach : Reach ℕ 1 stuck_entry (0 ∷ []) []
unfolding new_entry read time_out
hung_reach = fires 0 (reads starts)

one_probe_example :
    (1 ≤ 1)
    × (◌≡◌ {A = Bool} true true
        → (◌≡◌ {A = ℕ} 1 1) × (read 1 stuck_entry ≡ (at_once [], stuck_entry)))
    × (◌≡◌ {A = List ℕ} (0 ∷ []) [] → (read 1 stuck_entry).0 ≡ waits true 1 (newest []))
one_probe_example = one_probe hung_reach

abbrev one_pool : BaseIo
one_pool = record {
  kind = codes "logical";
  name = codes "tank";
  device_path = [];
  ref = codes "zfs:tank";
  role = [];
}

abbrev one_raid : BaseIo
one_raid = record one_pool { kind = codes "raid"; name = codes "md0" }

abbrev some_scores : List (Text × ℕ)
some_scores = (codes "md0", 90) ∷ []

apply_roles_lem_example :
    (length (keep is_primary (apply_roles some_scores (one_pool ∷ one_raid ∷ []))) ≡ 1)
    × ((k : ℕ) × (d : BaseIo) × (nth k (one_pool ∷ one_raid ∷ []) ≡ some d)
        × (nth k (apply_roles some_scores (one_pool ∷ one_raid ∷ []))
            ≡ some (with_role (codes "primary") d))
        × Most some_scores (score_of some_scores d.name) (one_pool ∷ one_raid ∷ []))
apply_roles_lem_example = apply_roles_lem some_scores one_pool (one_raid ∷ [])

abbrev lan : ℕ → NetCounter
lan bytes = record {
  name = codes "eth0";
  bytes_recv = bytes;
  bytes_sent = 1;
  packets_recv = 1;
  packets_sent = 1;
  err_in = 0;
  err_out = 0;
  drop_in = 0;
  drop_out = 0;
}

abbrev both : NetCounter
both = record (lan 12) { bytes_sent = 2; packets_recv = 2; packets_sent = 2 }
