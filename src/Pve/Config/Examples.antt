-- ===== src/Pve/Config/Examples.antt =====
-- The configuration of a machine.
use ithiltir_node.Base.{
  ℕ, ◌*◌, ◌≡◌, refl, Bool, false, Option, none, some, List, [], ◌∷◌, ◌++◌, Text, codes, text_eq, ℤ,
  pos, arith, split_at, trim_space, starts_with, cut_at, put_text, find_text, parse_int,
  without_prefix,
}
use ithiltir_node.Pve.Collector.{VmConfig}
use ithiltir_node.Pve.Config.{Rest, network_rate_limits, parse_config}
use ithiltir_node.Pve.Config.Bounds.{InRange, parse_config-InRange}

abbrev itoa_zero : ℤ → Text
itoa_zero n = codes "0"

abbrev one_rate : Text → Option ℕ
one_rate s = some 1

abbrev never : ℕ → Bool
never n = false

abbrev same_rate : ℕ → ℕ
same_rate n = n

abbrev lines : List Text → Text
lines [] = []
lines (l ∷ ls) = l ++ b'\n' ∷ lines ls

-- Two cores of a named machine, and a snapshot of it with four.
abbrev config : Text
config = lines (
    codes "name: db"
    ∷ codes "cores: 2"
    ∷ codes "memory: 1024"
    ∷ codes "[saved]"
    ∷ codes "cores: 4"
    ∷ [])

abbrev machine : VmConfig ℕ Rest
machine = record {
  vm = record {
    collected_at = none;
    ttl_seconds = pos 0;
    ips_collected_at = none;
    ips_ttl_seconds = pos 0;
    ips = [];
    id = pos 100;
    name = codes "db";
    status = codes "stopped";
    qmp_status = [];
    template = false;
    cpu = none;
    net_rate_limits = [];
    cpus = some (pos 2);
    memory = none;
    memory_limit = some (pos 1073741824);
    disk_capacity = none;
    disk_read = none;
    disk_write = none;
    net_in = none;
    net_out = none;
    uptime = none;
  };
  rest = record { agent = []; nics = [] };
}

config_read :
    parse_config itoa_zero 0 one_rate never never never same_rate (pos 100) config 4 ≡ some machine
unfolding parse_config split_at trim_space starts_with cut_at put_text find_text parse_int
    without_prefix text_eq network_rate_limits
config_read = refl

parse_config-InRange_example :
    (cpus : ℕ) × (memory : ℕ) × (machine.vm.cpus ≡ some (pos cpus))
    × (machine.vm.memory_limit ≡ some (pos (memory * 1024 * 1024)))
    × InRange itoa_zero 0 one_rate never never never same_rate 4 cpus memory
parse_config-InRange_example =
    parse_config-InRange itoa_zero 0 one_rate never never never same_rate (pos 100) config 4 machine
      config_read (omega arith)
