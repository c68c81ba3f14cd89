-- ===== src/Pve/Config.antt =====
-- internal/pve/local.go, parseConfig, and networkRateLimits of collect.go: the configuration file of
-- a machine. Floating-point numbers and the printing of a number are parameters; the text of an
-- error is left out. A map is the list of its entries, and `nics` has their order.
pub mod Bounds
pub mod Rates
mod Examples
use ithiltir_node.Base.{
  ℕ, ◌*◌, ◌^◌, min, Bool, true, false, ◌||◌, not, Option, none, some, List, [], ◌∷◌, ◌++◌, Text,
  codes, text_eq, trim_space, ℤ, pos, negsuc, leb, ◌==◌, if◌then◌else◌, is_empty, starts_with,
  without_prefix, cut_at, split_at, parse_int, put_text, find_text, and_then,
}
use ithiltir_node.Pve.Snapshot.{Vm}
use ithiltir_node.Pve.Collector.{VmConfig}

-- The fields of vmConfig besides its machine.
pub record Rest : Type 0 where
  pub agent : Text
  pub nics : List Text

put_line : Option (Text × Text) → List (Text × Text) → List (Text × Text)
put_line none m = m
put_line (some (key, value)) m = put_text key (trim_space value) m

is_comment : Text → Bool
is_comment line = starts_with (codes "#") line

-- The loop over the lines, to the first section.
pub config_fields : List Text → List (Text × Text) → List (Text × Text)
unfolding put_line is_comment
config_fields [] m = m
config_fields (raw ∷ lines) m =
    let line = trim_space raw in
    let rest = config_fields lines (if is_comment line then m else put_line (cut_at b':' line) m) in
    if starts_with (codes "[") line then m else rest

-- `fields[key]`
pub field : Text → List (Text × Text) → Text
field key m = elim (find_text key m) [ none ↦ [] | some value ↦ value ]

-- A number that was parsed: positive, and at most math.MaxInt32.
pub in_range : Option ℤ → Option ℕ
in_range none = none
in_range (some (negsuc n)) = none
in_range (some (pos n)) = if n == 0 || leb (2 ^ 31) n then none else some n

-- `number`, with the prefix that is trimmed; `none` is its error.
pub number : Text → Text → ℕ → Option ℕ
unfolding in_range
number prefix value fallback =
    if is_empty value then some fallback else in_range (parse_int (without_prefix prefix value))

is_true : Text → Bool
is_true value =
    text_eq value (codes "1")
    || text_eq value (codes "yes")
    || text_eq value (codes "on")
    || text_eq value (codes "true")

-- One property of the agent's text.
agent_property : Option (Text × Text) → Text → Bool → Bool
unfolding is_true
agent_property none property enabled = is_true property
agent_property (some (key, value)) property enabled =
    if text_eq key (codes "enabled") then is_true value else enabled

agent_enabled : List Text → Bool → Bool
unfolding agent_property
agent_enabled [] enabled = enabled
agent_enabled (property ∷ properties) enabled =
    agent_enabled properties (agent_property (cut_at b'=' property) property enabled)

agent_of : Text → Text
unfolding agent_enabled
agent_of agent = if agent_enabled (split_at b',' agent) false then agent else []

module _ (itoa : ℤ → Text) where
  -- `key == fmt.Sprintf("net%d", index)` with an index that is not negative.
  is_nic : Text → Option ℤ → Bool
  is_nic key none = false
  is_nic key (some (negsuc n)) = false
  is_nic key (some (pos n)) = text_eq key (codes "net" ++ itoa (pos n))

  pub nic_index : Text → Option ℤ
  unfolding is_nic
  nic_index key =
      let index = parse_int (without_prefix (codes "net") key) in
      if is_nic key index then index else none

  -- The loop over the fields: the tap devices of the machine.
  tap_names : ℤ → List (Text × Text) → List Text
  unfolding nic_index
  tap_names id [] = []
  tap_names id ((key, value) ∷ m) = elim (nic_index key) [
    | none ↦ tap_names id m
    | some index ↦ (codes "tap" ++ (itoa id ++ (codes "i" ++ itoa index))) ∷ tap_names id m
  ]

  module _ {Float : Type 0} (zero_rate : Float) (parse_rate : Text → Option Float)
      (is_nan is_inf is_negative : Float → Bool) (to_mbps : Float → Float) where
    checked_rate : Option Float → Option Float
    checked_rate none = none
    checked_rate (some r) = if is_nan r || is_inf r || is_negative r then none else some r

    -- One property of a device; `none` is the error.
    pub next_rate : Option (Text × Text) → Float → Option Float
    unfolding checked_rate
    next_rate none rate = some rate
    next_rate (some (key, value)) rate =
        if text_eq key (codes "rate") then checked_rate (parse_rate value) else some rate

    -- The loop over the properties of one device.
    pub rate_of : List Text → Float → Option Float
    unfolding next_rate
    rate_of [] rate = some rate
    rate_of (property ∷ properties) rate =
        and_then (next_rate (cut_at b'=' (trim_space property)) rate) (λ r. rate_of properties r)

    scaled : Option Float → Option Float
    scaled none = none
    scaled (some r) = if is_inf (to_mbps r) then none else some (to_mbps r)

    -- One line; `none` is the error.
    pub limit_line : Option (Text × Text) → List (Text × Float) → Option (List (Text × Float))
    unfolding nic_index rate_of scaled
    limit_line none limits = some limits
    limit_line (some (name, value)) limits =
        if not (starts_with (codes "net") name) then some limits else elim (nic_index name) [
          | none ↦ some limits
          | some index ↦ elim (scaled (rate_of (split_at b',' value) zero_rate)) [
            | none ↦ none
            | some r ↦ some (put_text name r limits)
          ]
        ]

    -- networkRateLimits over the lines.
    pub limits_from : List Text → List (Text × Float) → Option (List (Text × Float))
    unfolding limit_line
    limits_from [] limits = some limits
    limits_from (raw ∷ lines) limits =
        let line = trim_space raw in
        if starts_with (codes "[") line
        then some limits
        else elim (limit_line (cut_at b':' line) limits) [
          | none ↦ none
          | some next ↦ limits_from lines next
        ]

    unfoldable pub network_rate_limits : Text → Option (List (Text × Float))
    unfolding limits_from
    network_rate_limits raw = limits_from (split_at b'\n' raw) []

    pub all_limits : Option (List (Text × Float)) → List (Text × Float)
    all_limits none = []
    all_limits (some limits) = limits

    -- The machine of parseConfig before the numbers, with the limits or nil.
    pub named_vm : ℤ → List (Text × Text) → List (Text × Float) → Vm Float
    named_vm id m limits = record {
      collected_at = none;
      ttl_seconds = pos 0;
      ips_collected_at = none;
      ips_ttl_seconds = pos 0;
      ips = [];
      id = id;
      name =
          if is_empty (field (codes "name") m)
          then codes "VM " ++ itoa id
          else field (codes "name") m;
      status = codes "stopped";
      qmp_status = [];
      template = text_eq (field (codes "template") m) (codes "1");
      cpu = none;
      net_rate_limits = limits;
      cpus = none;
      memory = none;
      memory_limit = none;
      disk_capacity = none;
      disk_read = none;
      disk_write = none;
      net_in = none;
      net_out = none;
      uptime = none;
    }

    -- What follows the four numbers.
    pub with_numbers : Vm Float → List (Text × Text) → ℕ → ℕ → VmConfig Float Rest
    unfolding tap_names agent_of
    with_numbers vm m cpus memory = record {
      vm = record vm { cpus = some (pos cpus); memory_limit = some (pos (memory * 1024 * 1024)) };
      rest = record { agent = agent_of (field (codes "agent") m); nics = tap_names vm.id m };
    }

    -- The chain of `number`; `none` is an error.
    pub numbers : List (Text × Text) → ℕ → Option (ℕ × ℕ)
    unfolding number field
    numbers m host_cpus = and_then (number [] (field (codes "cores") m) 1) (λ cores.
        and_then (number [] (field (codes "sockets") m) 1) (λ sockets.
          and_then (number [] (field (codes "vcpus") m) (min (cores * sockets) host_cpus)) (λ cpus.
            and_then (number (codes "current=") (field (codes "memory") m) 512)
              (λ memory. some (cpus, memory)))))

    -- parseConfig; `none` is an error. `host_cpus` is at least 1.
    unfoldable pub parse_config : ℤ → Text → ℕ → Option (VmConfig Float Rest)
    unfolding config_fields named_vm with_numbers numbers all_limits
    parse_config id raw host_cpus =
        let m = config_fields (split_at b'\n' raw) [] in
        and_then (numbers m host_cpus) (λ n.
          some (with_numbers (named_vm id m (all_limits (network_rate_limits raw))) m n.0 n.1))
