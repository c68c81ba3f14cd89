-- ===== src/Collect/Raid/Zfs.antt =====
-- parseZFSStatus of internal/collect/storage_raid_linux.go, on the output of `zpool status -P`.
-- strings.TrimRight of a carriage return is left out, as strings.TrimSpace follows it.
pub mod Pools
use ithiltir_node.Base.{
  ℕ, ◌-◌, Bool, true, false, ◌&&◌, ◌||◌, not, Option, none, some, List, [], ◌∷◌, ◌++◌, Text, codes,
  text_eq, trim_space, pos, int_eq, ltb, leb, if◌then◌else◌, is_empty, length, starts_with,
  without_prefix, fields, split_at,
}
use ithiltir_node.Collect.Raid.{
  MemberState, up, down, unclear, Health, healthy, degraded, unknown_health, RaidArray, in_state,
  is_up, is_down, progress, to_lower, to_upper,
}

-- The variables of parseZFSStatus: `cur` is nil or the pool of the lines.
pub record Zfs : Type 0 where
  pub cur : Option RaidArray
  pub in_config : Bool
  pub skip_header : ℕ
  pub res : List RaidArray

is_broken : Text → Bool
is_broken s =
    text_eq s (codes "DEGRADED")
    || text_eq s (codes "FAULTED")
    || text_eq s (codes "UNAVAIL")
    || text_eq s (codes "OFFLINE")
    || text_eq s (codes "REMOVED")

-- `health`.
health_named : Text → Health
unfolding is_broken
health_named state =
    let s = to_upper state in
    if text_eq s (codes "ONLINE")
    then healthy
    else if is_broken s || text_eq s (codes "SUSPENDED")
    then degraded
    else unknown_health

-- The three steps of `flush` on the pool.
pub counted_devices : RaidArray → RaidArray
counted_devices a =
    if int_eq a.devices (pos 0) && not (is_empty a.members)
    then record a { devices = pos (length a.members) }
    else a

pub counted_states : RaidArray → RaidArray
counted_states a =
    if int_eq a.working (pos 0) && int_eq a.active (pos 0) && not (is_empty a.members)
    then record a {
      working = pos (in_state is_up a.members);
      active = pos (in_state is_up a.members);
      failed_count = in_state is_down a.members;
    }
    else a

pub known_health : Health → ℕ → Health
known_health unknown_health failed_count = if ltb 0 failed_count then degraded else healthy
known_health healthy failed_count = healthy
known_health degraded failed_count = degraded

pub flushed : RaidArray → RaidArray
unfolding counted_devices counted_states known_health
flushed a =
    let b = counted_states (counted_devices a) in
    record b { health = known_health b.health b.failed_count }

pub flush_onto : Option RaidArray → List RaidArray → List RaidArray
unfolding flushed
flush_onto none res = res
flush_onto (some a) res = res ++ flushed a ∷ []

-- `flush`.
pub flush : Zfs → Zfs
unfolding flush_onto
flush z = record z { cur = none; res = flush_onto z.cur z.res }

is_group : Text → Bool
is_group l =
    starts_with (codes "mirror") l
    || starts_with (codes "raidz") l
    || text_eq l (codes "spares")
    || text_eq l (codes "logs")
    || text_eq l (codes "cache")
    || text_eq l (codes "special")
    || text_eq l (codes "dedup")

is_plain : ℕ → Bool
is_plain c = leb b'a' c && leb c b'z' || leb b'0' c && leb c b'9'

are_plain : Text → Bool
unfolding is_plain
are_plain [] = true
are_plain (c ∷ s) = is_plain c && are_plain s

-- `leaf`, with the name of the pool.
pub leaf : Text → Text → Bool
unfolding is_group are_plain
leaf pool raw =
    let name = trim_space raw in
    not (is_empty name)
    && not (is_group (to_lower name))
    && not (text_eq name pool)
    && (starts_with (codes "/dev/") name || are_plain name)

-- `levelOf`; empty if there is none.
level_of : Text → Text
level_of name =
    let l = to_lower name in
    if starts_with (codes "mirror") l
    then codes "mirror"
    else if starts_with (codes "raidz1") l
    then codes "raidz1"
    else if starts_with (codes "raidz2") l
    then codes "raidz2"
    else if starts_with (codes "raidz3") l
    then codes "raidz3"
    else []

member_state : Text → MemberState
unfolding is_broken
member_state s = if text_eq s (codes "ONLINE") then up else if is_broken s then down else unclear

or_level : Text → Text → Text
or_level [] old = old
or_level (c ∷ l) old = c ∷ l

pub with_level : Text → RaidArray → RaidArray
unfolding level_of or_level
with_level name a =
    if text_eq a.level (codes "unknown")
    then record a { level = or_level (level_of name) a.level }
    else a

pub with_member : Text → Text → RaidArray → RaidArray
unfolding leaf member_state
with_member name state a =
    if leaf a.name name
    then record a { members = a.members ++ record { name = name; state = member_state state } ∷ [] }
    else a

-- The words of a line of the configuration.
pub config_words : List Text → RaidArray → RaidArray
unfolding with_level with_member
config_words [] a = a
config_words (name ∷ []) a = a
config_words (name ∷ state ∷ words) a = with_member name (to_upper state) (with_level name a)

pub is_header : ℕ → Text → Bool
is_header skip trim = ltb 0 skip && (is_empty trim || starts_with (codes "NAME") trim)

after_key : Text → Text → Text
after_key key trim = trim_space (without_prefix key trim)

pub new_pool : Text → RaidArray
new_pool name = record {
  name = name;
  level = codes "unknown";
  status = [];
  devices = pos 0;
  active = pos 0;
  working = pos 0;
  failed_count = 0;
  health = unknown_health;
  members = [];
  sync_status = [];
  sync_progress = [];
}

pub with_status : Text → RaidArray → RaidArray
unfolding health_named
with_status status a = record a { status = status; health = health_named status }

pub with_scan : Text → RaidArray → RaidArray
with_scan scan a = record a { sync_status = scan; sync_progress = progress scan }

-- A line within a pool `a`, trimmed.
pub pool_line : Text → RaidArray → Zfs → Zfs
unfolding with_status with_scan is_header after_key config_words
pool_line trim a z =
    if starts_with (codes "state:") trim
    then record z { cur = some (with_status (after_key (codes "state:") trim) a) }
    else if starts_with (codes "scan:") trim
    then record z { cur = some (with_scan (after_key (codes "scan:") trim) a) }
    else if text_eq trim (codes "config:")
    then record z { in_config = true; skip_header = 2 }
    else if starts_with (codes "errors:") trim
    then record z { in_config = false }
    else if not z.in_config
    then z
    else if is_header z.skip_header trim
    then record z { skip_header = z.skip_header - 1 }
    else record z { skip_header = 0; cur = some (config_words (fields trim) a) }

pub inner_line : Option RaidArray → Text → Zfs → Zfs
unfolding pool_line
inner_line none trim z = z
inner_line (some a) trim z = pool_line trim a z

pub is_pool : Text → Bool
is_pool trim = starts_with (codes "pool:") trim

pub start_pool : Text → Zfs → Zfs
unfolding flush new_pool
start_pool trim z = record (flush z) {
  cur = some (new_pool (after_key (codes "pool:") trim));
  in_config = false;
  skip_header = 0;
}

-- One round of the loop.
pub zfs_line : Text → Zfs → Zfs
unfolding inner_line is_pool start_pool
zfs_line raw z =
    let trim = trim_space raw in if is_pool trim then start_pool trim z else inner_line z.cur trim z

pub zfs_lines : List Text → Zfs → Zfs
unfolding zfs_line
zfs_lines [] z = z
zfs_lines (raw ∷ lines) z = zfs_lines lines (zfs_line raw z)

pub no_pools : Zfs
no_pools = record { cur = none; in_config = false; skip_header = 0; res = [] }

-- parseZFSStatus.
pub parse_zfs_status : Text → List RaidArray
unfolding zfs_lines flush no_pools
parse_zfs_status s = (flush (zfs_lines (split_at b'\n' s) no_pools)).res
