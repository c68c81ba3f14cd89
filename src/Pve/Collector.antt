-- ===== src/Pve/Collector.antt =====
-- internal/pve/cache.go, but for the worker's timer: the entries of the machines, the choice of the
-- next machine to sample, and the copy that readers get. What sampleVM observes is an input.
pub mod Stock
pub mod Turns
pub mod Exclusion
pub mod Listing
mod Examples
use ithiltir_node.Base.{
  ℕ, zero, suc, ◌+◌, ◌*◌, ◌-◌, ◌%◌, min, Bool, ◌&&◌, ◌||◌, not, Option, none, some, List, [], ◌∷◌,
  map, Text, codes, ℤ, int_eq, Time, second, minute, ltb, leb, ◌==◌, if◌then◌else◌, Result, ok, err,
  is_some, keep, exists_in, length,
}
use ithiltir_node.Pve.Snapshot.{Vm, expire_vm}

-- vmConfig; `agent` and `nics` are in `rest`.
pub record VmConfig (Float Rest : Type 0) : Type 0 where
  pub vm : Vm Float
  pub rest : Rest

-- An observation; `tag` stands for its address.
pub record Observation (Float Rest Process : Type 0) : Type 0 where
  pub tag : ℕ
  pub config : VmConfig Float Rest
  pub vm : Vm Float
  pub previous : Process
  pub next : Time

-- The collector; a map is the list of its entries, `order` is nil or a list, `changed` counts the
-- channels that notify has closed, and `fresh` is an address not yet in use.
pub record Collector (Float Rest Process : Type 0) : Type 0 where
  pub entries : List (ℤ × Observation Float Rest Process)
  pub order : Option (List ℤ)
  pub active : List ℤ
  pub cursor : ℕ
  pub changed : ℕ
  pub inventory_at : Time
  pub inventory_err : Option Text
  pub capacities : List (ℤ × Option ℤ)
  pub metadata_at : Time
  pub fresh : ℕ

pub sample_interval : Time
sample_interval = 3 * second

-- `m[id]`
pub find_entry {ℓ} : {A : Type ℓ} → ℤ → List (ℤ × A) → Option A
find_entry id [] = none
find_entry id ((k, a) ∷ m) = if int_eq id k then some a else find_entry id m

-- `m[id] = a`
pub put_entry {ℓ} : {A : Type ℓ} → ℤ → A → List (ℤ × A) → List (ℤ × A)
put_entry id a [] = (id, a) ∷ []
put_entry id a ((k, b) ∷ m) = if int_eq id k then (k, a) ∷ m else (k, b) ∷ put_entry id a m

pub all_ids : Option (List ℤ) → List ℤ
all_ids none = []
all_ids (some ids) = ids

-- `order[i]`; `none` is the panic.
pub at_index : ℕ → List ℤ → Option ℤ
at_index i [] = none
at_index zero (id ∷ ids) = some id
at_index (suc i) (id ∷ ids) = at_index i ids

pub data Missing : Type 0 where
  source_unavailable not_found : Missing

module _ {Float Rest Process : Type 0} (new_process : Process) where
  pub new_collector : Collector Float Rest Process
  new_collector = record {
    entries = [];
    order = none;
    active = [];
    cursor = 0;
    changed = 0;
    inventory_at = 0;
    inventory_err = none;
    capacities = [];
    metadata_at = 0;
    fresh = 0;
  }

  pub new_observation : ℕ → VmConfig Float Rest → Observation Float Rest Process
  new_observation tag config = record {
    tag = tag;
    config = config;
    vm = record config.vm { status = codes "unknown" };
    previous = new_process;
    next = 0;
  }

  -- The entry of a machine in the old map, or a new one.
  pub kept_entry :
      ℕ
      → VmConfig Float Rest
      → Option (Observation Float Rest Process)
      → Observation Float Rest Process
  unfolding new_observation
  kept_entry tag config none = new_observation tag config
  kept_entry tag config (some entry) = record entry { config = config }

  -- The loop of refreshInventory.
  pub refresh_entries :
      ℕ
      → List (ℤ × Observation Float Rest Process)
      → List (VmConfig Float Rest)
      → List (ℤ × Observation Float Rest Process)
      → List (ℤ × Observation Float Rest Process)
  unfolding find_entry put_entry kept_entry
  refresh_entries tag old [] new = new
  refresh_entries tag old (config ∷ configs) new =
      let id = config.vm.id in
      refresh_entries (tag + 1) old configs
        (put_entry id (kept_entry tag config (find_entry id old)) new)

  -- refreshInventory, after what inventory returned.
  pub refresh_inventory :
      Result Text (List (VmConfig Float Rest))
      → Time
      → Collector Float Rest Process
      → Collector Float Rest Process
  unfolding refresh_entries
  refresh_inventory (err e) now c = record c { inventory_err = some e }
  refresh_inventory (ok configs) now c = record c {
    entries = refresh_entries c.fresh c.entries configs [];
    order = some (map (λ config. config.vm.id) configs);
    changed = c.changed + 1;
    inventory_at = now;
    inventory_err = none;
    fresh = c.fresh + length configs;
  }

-- What next gives: an entry at its index, the time to wait, or a nil entry or index.
pub data Choice (Float Rest Process : Type 0) : Type 0 where
  chosen : ℕ → ℤ → Observation Float Rest Process → Choice Float Rest Process
  idle : Time → Choice Float Rest Process
  panicked : Choice Float Rest Process

pub is_active : ℤ → List ℤ → Bool
is_active id active = exists_in (int_eq id) active

pub capacity_of : Option (Option ℤ) → Option ℤ
capacity_of none = none
capacity_of (some capacity) = capacity

module _ {Float Rest Process : Type 0} where
  -- One entry of the loop of next; `later` is the rest of the loop.
  pub consider :
      Time
      → List ℤ
      → ℕ
      → Time
      → ℤ
      → Option (Observation Float Rest Process)
      → (Time → Choice Float Rest Process)
      → Choice Float Rest Process
  unfolding is_active
  consider now active index wait id none later =
      if is_active id active then later wait else panicked
  consider now active index wait id (some entry) later =
      if is_active id active
      then later wait
      else if ltb now entry.next
      then later (min wait (entry.next - now))
      else chosen index id entry

  -- The loop of next, over `rounds` offsets from `offset` on.
  pub scan : ℕ → ℕ → Time → Time → Collector Float Rest Process → Choice Float Rest Process
  unfolding consider at_index all_ids find_entry
  scan zero offset now wait c = idle wait
  scan (suc rounds) offset now wait c =
      let order = all_ids c.order in
      let index = (c.cursor + offset) % length order in
      elim (at_index index order) [
        | none ↦ panicked
        | some id ↦
            consider now c.active index wait id (find_entry id c.entries)
              (λ w. scan rounds (offset + 1) now w c)
      ]

  pub choose : Time → Collector Float Rest Process → Choice Float Rest Process
  unfolding scan all_ids sample_interval
  choose now c = scan (length (all_ids c.order)) 0 now sample_interval c

  -- What a choice does to the collector.
  pub take_choice :
      Choice Float Rest Process → Collector Float Rest Process → Collector Float Rest Process
  unfolding all_ids
  take_choice (chosen index id entry) c = record c {
    active = id ∷ c.active;
    cursor = (index + 1) % length (all_ids c.order);
  }
  take_choice (idle wait) c = c
  take_choice panicked c = c

  pub next :
      Time → Collector Float Rest Process → Choice Float Rest Process × Collector Float Rest Process
  unfolding choose take_choice
  next now c = let choice = choose now c in (choice, take_choice choice c)

  -- A worker's store of what it sampled, unless the entry was replaced or the worker is stopping.
  store_sample :
      Bool
      → ℕ
      → Vm Float
      → Process
      → Time
      → Observation Float Rest Process
      → Observation Float Rest Process
  unfolding sample_interval
  store_sample stopping tag vm process started entry =
      if entry.tag == tag && not stopping
      then record entry { vm = vm; previous = process; next = started + sample_interval }
      else entry

  pub update_entry :
      (Observation Float Rest Process → Observation Float Rest Process)
      → ℤ
      → List (ℤ × Observation Float Rest Process)
      → List (ℤ × Observation Float Rest Process)
  update_entry f id [] = []
  update_entry f id ((k, entry) ∷ m) =
      if int_eq id k then (k, f entry) ∷ m else (k, entry) ∷ update_entry f id m

  -- The end of a worker's round: the machine `id`, whose entry had the address `tag`.
  pub complete :
      Bool
      → ℤ
      → ℕ
      → Vm Float
      → Process
      → Time
      → Collector Float Rest Process
      → Collector Float Rest Process
  unfolding store_sample update_entry
  complete stopping id tag vm process started c = record c {
    active = keep (λ k. not (int_eq id k)) c.active;
    entries = update_entry (store_sample stopping tag vm process started) id c.entries;
    changed = c.changed + 1;
  }

  is_current : Time → Collector Float Rest Process → Bool
  is_current now c = not (c.inventory_at == 0) && leb now (c.inventory_at + 90 * second)

  -- The error that a snapshot reports.
  pub source_error : Time → Collector Float Rest Process → Option Text
  unfolding is_current
  source_error now c =
      if is_current now c
      then c.inventory_err
      else some (codes "PVE inventory unavailable or expired")

  pub shown_vm : Time → Collector Float Rest Process → ℤ → Observation Float Rest Process → Vm Float
  unfolding capacity_of find_entry
  shown_vm now c id entry = expire_vm now (record entry.vm {
    name = entry.config.vm.name;
    net_rate_limits = entry.config.vm.net_rate_limits;
    disk_capacity =
        if ltb now (c.metadata_at + 2 * minute)
        then capacity_of (find_entry id c.capacities)
        else none;
  })

  -- The loop of snapshot; `none` is a nil entry.
  pub shown_vms : Time → Collector Float Rest Process → List ℤ → Option (List (Vm Float))
  unfolding shown_vm
  shown_vms now c [] = some []
  shown_vms now c (id ∷ ids) = elim (find_entry id c.entries) [
    | none ↦ none
    | some entry ↦ elim (shown_vms now c ids) [
      | none ↦ none
      | some vms ↦ some (shown_vm now c id entry ∷ vms)
    ]
  ]

  -- contains; `ok` is no error.
  pub contains : Time → ℤ → Collector Float Rest Process → Result Missing (Unit {0})
  unfolding is_current find_entry
  contains now id c =
      if is_some c.inventory_err || not (is_current now c)
      then err source_unavailable
      else if is_some (find_entry id c.entries)
      then ok tt
      else err not_found
