-- ===== src/Pve/Collector/Examples.antt =====
-- The theorems on the collector at an inventory of one machine. A floating-point number, the rest of
-- a configuration and a process sample are native numbers here.
use ithiltir_node.Base.{
  ℕ, ◌≡◌, ◌≢◌, ◌↔◌, refl, true, false, none, some, List, [], ◌∷◌, codes, pos, int_eq, Time, ok,
  exists_in, arith,
}
use ithiltir_node.Pve.Snapshot.{Vm}
use ithiltir_node.Pve.Collector.{
  VmConfig, Observation, Collector, new_collector, new_observation, kept_entry, refresh_inventory,
  refresh_entries, find_entry, put_entry, all_ids, at_index, choose, scan, consider, is_active,
  take_choice, panicked, contains, source_error, shown_vms,
}
use ithiltir_node.Pve.Collector.Turns.{Moment, choices, is_turn, next_reaches}
use ithiltir_node.Pve.Collector.Exclusion.{
  Reach, starts, refreshes, takes, DistinctJobs, sampled_alone,
}
use ithiltir_node.Pve.Collector.Listing.{Shows, readers_agree}

abbrev new_vm : Vm ℕ
new_vm = record {
  collected_at = none;
  ttl_seconds = pos 0;
  ips_collected_at = none;
  ips_ttl_seconds = pos 0;
  ips = [];
  id = pos 100;
  name = codes "db";
  status = codes "running";
  qmp_status = codes "running";
  template = false;
  cpu = none;
  net_rate_limits = [];
  cpus = none;
  memory = none;
  memory_limit = none;
  disk_capacity = none;
  disk_read = none;
  disk_write = none;
  net_in = none;
  net_out = none;
  uptime = none;
}

abbrev one_config : VmConfig ℕ ℕ
one_config = record { vm = new_vm; rest = 0 }

abbrev one_entry : Observation ℕ ℕ ℕ
one_entry = record {
  tag = 0;
  config = one_config;
  vm = record new_vm { status = codes "unknown" };
  previous = 0;
  next = 0;
}

abbrev stocked_collector : Collector ℕ ℕ ℕ
stocked_collector = record {
  entries = (pos 100, one_entry) ∷ [];
  order = some (pos 100 ∷ []);
  active = [];
  cursor = 0;
  changed = 1;
  inventory_at = 5;
  inventory_err = none;
  capacities = [];
  metadata_at = 0;
  fresh = 1;
}

stocked_reach : Reach 0 stocked_collector []
unfolding new_collector refresh_inventory refresh_entries find_entry put_entry kept_entry
    new_observation
stocked_reach = refreshes {c = new_collector 0} (ok (one_config ∷ [])) 5 starts

abbrev busy_collector : Collector ℕ ℕ ℕ
busy_collector = record stocked_collector { active = pos 100 ∷ []; cursor = 0 }

busy_reach : Reach 0 busy_collector (pos 100 ∷ [])
unfolding choose scan consider at_index all_ids find_entry is_active int_eq take_choice
busy_reach =
    takes {c = stocked_collector} {jobs = []} {i = 0} {id = pos 100} {entry = one_entry} 6
      stocked_reach refl

sampled_alone_example :
    DistinctJobs (pos 100 ∷ []) × ((now : Time) → choose now busy_collector ≢ panicked)
sampled_alone_example = sampled_alone 0 busy_reach

readers_agree_example :
    ((contains 7 (pos 100) busy_collector ≡ ok tt) ↔ (
      (source_error 7 busy_collector ≡ none)
      × (exists_in (int_eq (pos 100)) (all_ids busy_collector.order) ≡ true)))
    × ((vms : List (Vm ℕ)) × (shown_vms 7 busy_collector (all_ids busy_collector.order) ≡ some vms)
        × Shows 7 busy_collector (all_ids busy_collector.order) vms)
readers_agree_example = readers_agree 0 7 (pos 100) busy_reach

abbrev calm : Moment ℕ ℕ ℕ
calm = record { now = 6; active = []; entries = (pos 100, one_entry) ∷ [] }

next_reaches_example : exists_in (is_turn (pos 100)) (choices (calm ∷ []) stocked_collector) ≡ true
unfolding at_index all_ids find_entry is_active int_eq
next_reaches_example =
    next_reaches (calm ∷ []) 0 stocked_collector (pos 100) refl
      (((refl, tt), refl, (one_entry, refl, refl)), tt) (omega arith)
