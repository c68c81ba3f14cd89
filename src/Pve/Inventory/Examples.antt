-- ===== src/Pve/Inventory/Examples.antt =====
-- A directory with one machine.
use ithiltir_node.Base.{
  ℕ, ◌≡◌, refl, Bool, false, Option, none, some, List, [], ◌∷◌, Text, codes, text_eq, ℤ, pos, All,
  split_at, trim_space, starts_with, cut_at, put_text, find_text, parse_int, without_prefix,
  before_suffix, after_prefix,
}
use ithiltir_node.Pve.Collector.{VmConfig}
use ithiltir_node.Pve.Config.{Rest, network_rate_limits, parse_config}
use ithiltir_node.Pve.Process.{FileRead, contents}
use ithiltir_node.Pve.Inventory.{inventory}
use ithiltir_node.Pve.Inventory.Listed.{IsListed, IsSorted, inventory-IsListed}

abbrev itoa_zero : ℤ → Text
itoa_zero n = codes "0"

abbrev one_rate : Text → Option ℕ
one_rate s = some 1

abbrev never : ℕ → Bool
never n = false

abbrev same_rate : ℕ → ℕ
same_rate n = n

abbrev files : ℤ → FileRead
files id = contents (codes "name: db")

abbrev machine : VmConfig ℕ Rest
machine = record {
  vm = record {
    collected_at = none;
    ttl_seconds = pos 0;
    ips_collected_at = none;
    ips_ttl_seconds = pos 0;
    ips = [];
    id = pos 100;
    name = codes "db";
    status = codes "stopped";
    qmp_status = [];
    template = false;
    cpu = none;
    net_rate_limits = [];
    cpus = some (pos 1);
    memory = none;
    memory_limit = some (pos 536870912);
    disk_capacity = none;
    disk_read = none;
    disk_write = none;
    net_in = none;
    net_out = none;
    uptime = none;
  };
  rest = record { agent = []; nics = [] };
}

abbrev entries : List Text
entries = codes "100.conf" ∷ codes "notes" ∷ []

directory_listed :
    inventory itoa_zero 0 one_rate never never never same_rate files 4 entries ≡ some (machine ∷ [])
unfolding inventory parse_config split_at trim_space starts_with cut_at put_text find_text parse_int
    without_prefix text_eq network_rate_limits before_suffix after_prefix
directory_listed = refl

inventory-IsListed_example :
    All (IsListed itoa_zero 0 one_rate never never never same_rate files 4) (machine ∷ [])
    × IsSorted (machine ∷ [])
inventory-IsListed_example =
    inventory-IsListed itoa_zero 0 one_rate never never never same_rate files 4 entries
      (machine ∷ []) directory_listed
