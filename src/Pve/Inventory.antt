-- ===== src/Pve/Inventory.antt =====
-- internal/pve/local.go, inventory with readConfig, and memoryUsage; guestIPs of guest.go. The
-- directory is the names of its entries, and its files are read by `read_file`.
pub mod Listed
mod Examples
use ithiltir_node.Base.{
  ℕ, zero, suc, Bool, true, false, ◌&&◌, Option, none, some, List, [], ◌∷◌, Text, codes, ℤ, pos,
  negsuc, ltb, ◌==◌, if◌then◌else◌, before_suffix, parse_int, and_then,
}
use ithiltir_node.Pve.Snapshot.{Addr}
use ithiltir_node.Pve.Collector.{VmConfig}
use ithiltir_node.Pve.Config.{Rest, parse_config}
use ithiltir_node.Pve.Monitor.{decode_ips}
use ithiltir_node.Pve.Process.{
  FileRead, missing, unreadable, contents, ProcessRead, gone, failed_read, found, is_same,
}

-- The id of a machine's file; `none` is an entry that is passed over.
pub usable_id : Option ℤ → Option ℤ
usable_id none = none
usable_id (some (negsuc n)) = none
usable_id (some (pos zero)) = none
usable_id (some (pos (suc n))) = some (pos (suc n))

pub file_id : Text → Option ℤ
unfolding usable_id
file_id name = usable_id (and_then (before_suffix (codes ".conf") name) parse_int)

-- `a < b` on ints.
pub int_less : ℤ → ℤ → Bool
int_less (pos a) (pos b) = ltb a b
int_less (pos a) (negsuc b) = false
int_less (negsuc a) (pos b) = true
int_less (negsuc a) (negsuc b) = ltb b a

-- What readConfig gives; `absent` is os.ErrNotExist.
pub data ConfigRead (Float : Type 0) : Type 0 where
  absent broken : ConfigRead Float
  config : VmConfig Float Rest → ConfigRead Float

module _ {Float : Type 0} where
  pub config_of : Option (VmConfig Float Rest) → ConfigRead Float
  config_of none = broken
  config_of (some c) = config c

  -- One entry before the configurations of the others; `none` is the error.
  pub put_config :
      ConfigRead Float → List (VmConfig Float Rest) → Option (List (VmConfig Float Rest))
  put_config absent configs = some configs
  put_config broken configs = none
  put_config (config c) configs = some (if c.vm.template then configs else c ∷ configs)

  pub insert_config : VmConfig Float Rest → List (VmConfig Float Rest) → List (VmConfig Float Rest)
  unfolding int_less
  insert_config c [] = c ∷ []
  insert_config c (d ∷ ds) = if int_less d.vm.id c.vm.id then d ∷ insert_config c ds else c ∷ d ∷ ds

  -- slices.SortFunc by the ids. Of two entries with one id, such as 1.conf and 01.conf, the source
  -- leaves the order open.
  pub sort_configs : List (VmConfig Float Rest) → List (VmConfig Float Rest)
  unfolding insert_config
  sort_configs [] = []
  sort_configs (c ∷ cs) = insert_config c (sort_configs cs)

module _ (itoa : ℤ → Text) {Float : Type 0} (zero_rate : Float) (parse_rate : Text → Option Float)
    (is_nan is_inf is_negative : Float → Bool) (to_mbps : Float → Float) (read_file : ℤ → FileRead)
    (host_cpus : ℕ) where
  pub parsed_config : ℤ → FileRead → ConfigRead Float
  unfolding config_of
  parsed_config id missing = absent
  parsed_config id unreadable = broken
  parsed_config id (contents raw) =
      config_of
        (parse_config itoa zero_rate parse_rate is_nan is_inf is_negative to_mbps id raw host_cpus)

  -- readConfig.
  pub read_config : ℤ → ConfigRead Float
  unfolding parsed_config
  read_config id = parsed_config id (read_file id)

  pub put_file : Option ℤ → List (VmConfig Float Rest) → Option (List (VmConfig Float Rest))
  unfolding read_config put_config
  put_file none configs = some configs
  put_file (some id) configs = put_config (read_config id) configs

  -- The loop over the entries.
  pub gather_configs : List Text → Option (List (VmConfig Float Rest))
  unfolding put_file file_id
  gather_configs [] = some []
  gather_configs (name ∷ names) =
      and_then (gather_configs names) (λ configs. put_file (file_id name) configs)

  -- inventory, once the processors are counted and the directory is read.
  unfoldable pub inventory : List Text → Option (List (VmConfig Float Rest))
  unfolding gather_configs sort_configs
  inventory names = and_then (gather_configs names) (λ configs. some (sort_configs configs))

-- guestIPs over the two reads of the process, the start that the target has, and the answer of the
-- agent; `none` is an error, as is an answer that the agent did not give.
same_guest : ProcessRead → ProcessRead → ℕ → Bool
unfolding is_same
same_guest (found before) (found after) start = before.start == start && is_same before after
same_guest (found before) gone start = false
same_guest (found before) failed_read start = false
same_guest gone after start = false
same_guest failed_read after start = false

guest_ips :
    (Text → Option Addr)
    → ProcessRead
    → ProcessRead
    → ℕ
    → Option (Option (List Text))
    → Option (List Text)
unfolding same_guest
guest_ips parse_guest before after start none = none
guest_ips parse_guest before after start (some answer) =
    if same_guest before after start then decode_ips parse_guest answer else none
