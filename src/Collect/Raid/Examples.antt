-- ===== src/Collect/Raid/Examples.antt =====
-- Texts of /proc/mdstat and of zpool.
use ithiltir_node.Base.{
  ℕ, ◌≡◌, refl, Option, none, some, List, [], ◌∷◌, ◌++◌, Text, codes, ℤ, pos, All, length, split_at,
  trim_space, starts_with, fields, before_suffix, after_prefix, cut_at, has_part, parse_int,
  without_prefix,
}
use ithiltir_node.Collect.Raid.{
  Health, degraded, RaidArray, ends_with, to_lower, progress, in_state, difference,
}
use ithiltir_node.Collect.Raid.Md.{parse_md_stat}
use ithiltir_node.Collect.Raid.Md.Enough.{parse_md_stat_returns}
use ithiltir_node.Collect.Raid.Zfs.{parse_zfs_status}
use ithiltir_node.Collect.Raid.Zfs.Pools.{IsSettled, pools_of, parse_zfs_status-IsSettled}
use ithiltir_node.Collect.Raid.Md.Coherent.{IsCoherent, parse_md_stat-IsCoherent}

abbrev lines : List Text → Text
lines [] = []
lines (l ∷ ls) = l ++ b'\n' ∷ lines ls

abbrev mirror : Text
mirror = lines (
    codes "Personalities : [raid1]"
    ∷ codes "md0 : active raid1 sdb1[1] sda1[0]"
    ∷ codes "      104320 blocks [2/1] [U_]"
    ∷ codes "unused devices: <none>"
    ∷ [])

-- The mirror while it recovers.
abbrev recovering : Text
recovering = lines (
    codes "md0 : active raid1 sdb1[1] sda1[0]"
    ∷ codes "      104320 blocks [2/1] [U_]"
    ∷ codes "      [==>......]  recovery = 12.6% (37/301) finish=1.0min"
    ∷ [])

abbrev summary : Option (List RaidArray) → List (Health × ℤ × ℕ)
summary none = []
summary (some []) = []
summary (some (a ∷ _)) = (a.health, a.working, a.failed_count) ∷ []

mirror_degraded : summary (parse_md_stat mirror) ≡ (degraded, pos 1, 1) ∷ []
unfolding parse_md_stat split_at trim_space starts_with fields before_suffix ends_with after_prefix
    cut_at to_lower has_part parse_int without_prefix in_state difference
mirror_degraded = refl

-- The bar of the recovery stands in brackets too and takes the place of the states, so that no
-- member is counted.
recovering_uncounted : summary (parse_md_stat recovering) ≡ (degraded, pos 0, 0) ∷ []
unfolding parse_md_stat split_at trim_space starts_with fields before_suffix ends_with after_prefix
    cut_at to_lower has_part parse_int without_prefix progress
recovering_uncounted = refl

abbrev arrays_of : Option (List RaidArray) → List RaidArray
arrays_of none = []
arrays_of (some arrays) = arrays

parse_md_stat-IsCoherent_example : All IsCoherent (arrays_of (parse_md_stat mirror))
unfolding parse_md_stat split_at trim_space starts_with fields before_suffix ends_with
parse_md_stat-IsCoherent_example =
    parse_md_stat-IsCoherent mirror (arrays_of (parse_md_stat mirror)) refl

parse_md_stat_returns_example : (arrays : List RaidArray) × (parse_md_stat mirror ≡ some arrays)
parse_md_stat_returns_example = parse_md_stat_returns mirror

abbrev tank : Text
tank = lines (
    codes "  pool: tank"
    ∷ codes " state: DEGRADED"
    ∷ codes "config:"
    ∷ []
    ∷ codes "    NAME          STATE"
    ∷ codes "    tank          DEGRADED"
    ∷ codes "      mirror-0    DEGRADED"
    ∷ codes "        /dev/sda1 ONLINE"
    ∷ codes "        /dev/sdb1 FAULTED"
    ∷ codes "errors: none"
    ∷ [])

parse_zfs_status-IsSettled_example :
    All IsSettled (parse_zfs_status tank)
    × (length (parse_zfs_status tank) ≡ pools_of (split_at b'\n' tank))
parse_zfs_status-IsSettled_example = parse_zfs_status-IsSettled tank
