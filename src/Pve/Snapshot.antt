-- ===== src/Pve/Snapshot.antt =====
-- internal/virt/snapshot.go: the snapshot of virtual machines, its validation and its expiry. The
-- functions of net/netip, strconv, fmt and math are parameters; a map is the list of its entries;
-- the text of an error is left out.
pub mod Sound
pub mod Later
pub mod Limits
pub mod Addresses
mod Examples
use ithiltir_node.Base.{
  byte_length, ◌+◌, ◌*◌, ◌-◌, ◌%◌, ◌^◌, wrap_int, ◌++◌, Bool, true, false, ◌&&◌, ◌||◌, not, Option,
  none, some, List, [], ◌∷◌, Text, codes, text_eq, ℤ, pos, negsuc, pos_part, is_positive, int_eq,
  Time, second, leb, ◌==◌, if◌then◌else◌, is_empty, is_some, length, exists_in, without_prefix,
}

-- What is read of an address that netip.ParseAddr takes; `unmapped` stands for ip.Unmap().
pub record Addr : Type 0 where
  pub zoned : Bool
  pub is_global_unicast : Bool
  pub unmapped : Text

pub record Vm (Float : Type 0) : Type 0 where
  pub collected_at : Option Time
  pub ttl_seconds : ℤ
  pub ips_collected_at : Option Time
  pub ips_ttl_seconds : ℤ
  pub ips : List Text
  pub id : ℤ
  pub name : Text
  pub status : Text
  pub qmp_status : Text
  pub template : Bool
  pub cpu : Option Float
  pub net_rate_limits : List (Text × Float)
  pub cpus : Option ℤ
  pub memory : Option ℤ
  pub memory_limit : Option ℤ
  pub disk_capacity : Option ℤ
  pub disk_read : Option ℤ
  pub disk_write : Option ℤ
  pub net_in : Option ℤ
  pub net_out : Option ℤ
  pub uptime : Option ℤ

-- `vms` is nil or a list.
pub record Snapshot (Float : Type 0) : Type 0 where
  pub schema : ℤ
  pub provider : Text
  pub host : Text
  pub collected_at : Time
  pub last_success_at : Option Time
  pub ttl_seconds : ℤ
  pub status : Text
  pub error : Text
  pub vms : Option (List (Vm Float))

-- Between 1 second and an hour.
is_lifetime : ℤ → Bool
is_lifetime n = is_positive n && leb (pos_part n) 3600

-- A reading is missing and has no lifetime, or is dated, not newer than the snapshot, and lives.
pub is_dated : Time → Option Time → ℤ → Bool
unfolding is_lifetime
is_dated now none ttl = int_eq ttl (pos 0)
is_dated now (some t) ttl = not (t == 0) && leb t now && is_lifetime ttl

is_counter : Option ℤ → Bool
is_counter none = true
is_counter (some (pos _)) = true
is_counter (some (negsuc _)) = false

is_successful : {Float : Type 0} → Snapshot Float → Bool
is_successful s =
    not (is_empty s.host) && is_some s.last_success_at && is_empty s.error && is_some s.vms

pub all_vms : {Float : Type 0} → Option (List (Vm Float)) → List (Vm Float)
all_vms none = []
all_vms (some vms) = vms

has_success_time : Time → Option Time → Bool
has_success_time now none = true
has_success_time now (some t) = not (t == 0) && leb t now

-- The checks of Validate before the loop.
pub is_headed : {Float : Type 0} → Snapshot Float → Bool
unfolding byte_length is_lifetime is_successful all_vms has_success_time
is_headed s =
    (int_eq s.schema (pos 1)
      && text_eq s.provider (codes "pve")
      && leb (byte_length s.host) 255
      && not (s.collected_at == 0)
      && is_lifetime s.ttl_seconds)
    && (text_eq s.status (codes "ok") || text_eq s.status (codes "error"))
    && (leb (byte_length s.error) 1024 && leb (length (all_vms s.vms)) 4096)
    && (not (text_eq s.status (codes "ok")) || is_successful s)
    && (not (text_eq s.status (codes "error") && is_empty s.error)
        && (is_empty (all_vms s.vms) || is_some s.last_success_at))
    && has_success_time s.collected_at s.last_success_at

module _ (parse_addr : Text → Option Addr) (atoi : Text → Option ℤ) (itoa : ℤ → Text)
    {Float : Type 0} (is_nan is_inf is_negative : Float → Bool) where
  pub is_rate : Float → Bool
  is_rate r = not (is_nan r) && not (is_inf r) && not (is_negative r)

  -- The loop over the addresses; `seen` is the map.
  pub are_addresses : List Text → List Text → Bool
  are_addresses seen [] = true
  are_addresses seen (raw ∷ raws) = elim (parse_addr raw) [
    | none ↦ false
    | some ip ↦
        not ip.zoned
        && ip.is_global_unicast
        && not (exists_in (text_eq ip.unmapped) seen)
        && are_addresses (ip.unmapped ∷ seen) raws
  ]

  pub is_index : Text → Option ℤ → Bool
  is_index name none = false
  is_index name (some (negsuc _)) = false
  is_index name (some (pos n)) = text_eq name (codes "net" ++ itoa (pos n))

  pub are_limits : List (Text × Float) → Bool
  unfolding is_rate is_index
  are_limits [] = true
  are_limits ((name, rate) ∷ limits) =
      is_index name (atoi (without_prefix (codes "net") name)) && is_rate rate && are_limits limits

  pub has_rate : Option Float → Bool
  unfolding is_rate
  has_rate none = true
  has_rate (some r) = is_rate r

  pub is_named : Vm Float → Bool
  unfolding byte_length
  is_named vm =
      leb (byte_length vm.name) 255
      && not (is_empty vm.status)
      && leb (byte_length vm.status) 64
      && leb (byte_length vm.qmp_status) 64

  pub are_counters : Vm Float → Bool
  unfolding is_counter
  are_counters vm =
      is_counter vm.cpus
      && is_counter vm.memory
      && is_counter vm.memory_limit
      && is_counter vm.disk_capacity
      && is_counter vm.disk_read
      && is_counter vm.disk_write
      && is_counter vm.net_in
      && is_counter vm.net_out
      && is_counter vm.uptime

  -- One round of the loop over the machines, but for the test of its id.
  pub is_vm : Time → Vm Float → Bool
  unfolding is_named is_dated are_addresses has_rate are_limits are_counters
  is_vm now vm =
      is_named vm
      && is_dated now vm.collected_at vm.ttl_seconds
      && is_dated now vm.ips_collected_at vm.ips_ttl_seconds
      && leb (length vm.ips) 1024
      && are_addresses [] vm.ips
      && has_rate vm.cpu
      && are_limits vm.net_rate_limits
      && are_counters vm

  pub are_vms : Time → List ℤ → List (Vm Float) → Bool
  unfolding is_vm
  are_vms now seen [] = true
  are_vms now seen (vm ∷ vms) =
      is_positive vm.id
      && not (exists_in (int_eq vm.id) seen)
      && is_vm now vm
      && are_vms now (vm.id ∷ seen) vms

  -- Validate; `true` is no error.
  unfoldable pub is_valid : Snapshot Float → Bool
  unfolding is_headed are_vms
  is_valid s = is_headed s && are_vms s.collected_at [] (all_vms s.vms)

-- `time.Duration(seconds) * time.Second`, an int64.
unfoldable pub to_duration : ℤ → ℤ
to_duration (pos n) = wrap_int (n * second)
to_duration (negsuc n) = wrap_int (2 ^ 64 - ((n + 1) * second) % 2 ^ 64)

-- `now.Sub(t) <= d`, on instants at most 292 years apart, as Sub saturates beyond.
is_within : Time → Time → ℤ → Bool
is_within now t (pos d) = leb now (t + d)
is_within now t (negsuc d) = leb (now + d + 1) t

pub is_live : {Float : Type 0} → Time → Vm Float → Bool
unfolding is_within to_duration
is_live now vm = elim vm.collected_at [
  | none ↦ false
  | some t ↦ is_within now t (to_duration vm.ttl_seconds)
]

-- What Expire hides.
pub hidden : {Float : Type 0} → Vm Float → Vm Float
hidden vm = record vm {
  status = codes "unknown";
  qmp_status = [];
  cpu = none;
  memory = none;
  uptime = none;
  disk_read = none;
  disk_write = none;
  net_in = none;
  net_out = none;
}

-- Expire.
pub expire_vm : {Float : Type 0} → Time → Vm Float → Vm Float
unfolding is_live hidden
expire_vm now vm = if is_live now vm then vm else hidden vm
