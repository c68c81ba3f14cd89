-- ===== src/Collect/Raid/Whole.antt =====
-- collectMDRaid, collectZFSRaid and collectRaid of internal/collect/storage_raid_linux.go. What is
-- read of /proc/mdstat and what the command prints are texts, `none` on an error.
use ithiltir_node.Base.{Bool, true, false, not, Option, none, some, List, [], ◌++◌, Text, is_empty}
use ithiltir_node.Collect.Raid.{RaidArray, RaidSnapshot}
use ithiltir_node.Collect.Raid.Md.{parse_md_stat}
use ithiltir_node.Collect.Raid.Zfs.{parse_zfs_status}

-- The arrays of a parse that returns.
returned : Option (List RaidArray) → List RaidArray
returned none = []
returned (some arrays) = arrays

-- collectMDRaid.
collect_md_raid : Option Text → List RaidArray
unfolding returned
collect_md_raid none = []
collect_md_raid (some raw) = returned (parse_md_stat raw)

-- collectZFSRaid, with whether there is the command.
collect_zfs_raid : Bool → Option Text → List RaidArray
collect_zfs_raid false out = []
collect_zfs_raid true none = []
collect_zfs_raid true (some out) = parse_zfs_status out

-- collectRaid.
collect_raid : Option Text → Bool → Option Text → RaidSnapshot
unfolding collect_md_raid collect_zfs_raid
collect_raid raw has_zpool out =
    let arrays = collect_md_raid raw ++ collect_zfs_raid has_zpool out in
    record { supported = true; available = not (is_empty arrays); arrays = arrays }
