-- ===== src/Collect/Usage.antt =====
-- internal/collect/disk_usage.go: the reader of the usage of filesystems, whose probes can hang; and
-- isPseudoFsType of disk_filesystem.go. What disk.Usage gives is an input; an entry is followed for
-- one path, and an entry that is not in the map is a new one.
pub mod Probes
pub mod Jobs
use ithiltir_node.Base.{
  ℕ, Bool, true, false, ◌&&◌, ◌||◌, Option, none, some, List, [], ◌∷◌, Text, codes, text_eq,
  trim_space, ◌==◌, if◌then◌else◌, Result, ok, err, is_empty, exists_in,
}

-- `probe` is the number of the probe that the entry waits for.
pub record UsageEntry (U : Type 0) : Type 0 where
  pub cached : Option U
  pub probe : Option ℕ
  pub stuck : Bool

-- What read does before it waits: it gives a usage or the deadline's error, or waits for a probe,
-- with what was cached; `true` if it starts the probe.
pub data Start (U : Type 0) : Type 0 where
  given : U → Start U
  deadline : Start U
  waits : Bool → ℕ → Option U → Start U

pub data Reading (U : Type 0) : Type 0 where
  usage : U → Reading U
  exceeded : Reading U
  refused : Text → Reading U

is_probe : Option ℕ → ℕ → Bool
is_probe none p = false
is_probe (some q) p = q == p

module _ {U : Type 0} where
  unfoldable pub new_entry : UsageEntry U
  new_entry = record { cached = none; probe = none; stuck = false }

  pub cached_or : Option U → Start U
  cached_or none = deadline
  cached_or (some u) = given u

  -- A read that finds a probe under way.
  pub join_probe : ℕ → Option U → Start U
  join_probe p none = waits false p none
  join_probe p (some u) = given u

  pub read_free : ℕ → Option ℕ → UsageEntry U → Start U × UsageEntry U
  unfolding join_probe
  read_free fresh none e = (waits true fresh e.cached, record e { probe = some fresh })
  read_free fresh (some p) e = (join_probe p e.cached, e)

  -- read up to waitProbe; `fresh` is the number of the next probe.
  unfoldable pub read : ℕ → UsageEntry U → Start U × UsageEntry U
  unfolding cached_or read_free
  read fresh e = if e.stuck then (cached_or e.cached, e) else read_free fresh e.probe e

  pub new_cached : Result Text (Option U) → Option U → Option U
  new_cached (err m) old = old
  new_cached (ok none) old = old
  new_cached (ok (some u)) old = some u

  -- runProbe, after its probe.
  pub run_probe : Result Text (Option U) → UsageEntry U → UsageEntry U
  unfolding new_cached
  run_probe r e = record { cached = new_cached r e.cached; probe = none; stuck = false }

  -- The timer of waitProbe.
  unfoldable pub time_out : ℕ → UsageEntry U → UsageEntry U
  unfolding is_probe
  time_out p e = if is_probe e.probe p then record e { stuck = true } else e

  -- What waitProbe returns, when the timer fires and when the probe is done.
  timed_out : Option U → Reading U
  timed_out none = exceeded
  timed_out (some u) = usage u

  wait_probe : Result Text (Option U) → Option U → Reading U
  unfolding timed_out
  wait_probe (err m) cached = refused m
  wait_probe (ok (some u)) cached = usage u
  wait_probe (ok none) cached = timed_out cached

pub record Partition : Type 0 where
  pub device : Text
  pub mountpoint : Text
  pub fs_type : Text

abbrev pseudo_types : List Text
pseudo_types =
    codes "proc"
    ∷ codes "sysfs"
    ∷ codes "devtmpfs"
    ∷ codes "devpts"
    ∷ codes "tmpfs"
    ∷ codes "cgroup"
    ∷ codes "cgroup2"
    ∷ codes "pstore"
    ∷ codes "bpf"
    ∷ codes "tracefs"
    ∷ codes "debugfs"
    ∷ codes "securityfs"
    ∷ codes "hugetlbfs"
    ∷ codes "configfs"
    ∷ codes "fusectl"
    ∷ codes "mqueue"
    ∷ codes "autofs"
    ∷ codes "rpc_pipefs"
    ∷ codes "binfmt_misc"
    ∷ codes "overlay"
    ∷ codes "aufs"
    ∷ codes "fuse.lxcfs"
    ∷ codes "squashfs"
    ∷ codes "efivarfs"
    ∷ codes "nsfs"
    ∷ codes "ramfs"
    ∷ []

pub is_pseudo_fs_type : Text → Bool
is_pseudo_fs_type ft = exists_in (text_eq ft) pseudo_types

-- The first loop of collect: the partitions to read, with `seen` the map.
pub usage_jobs : Bool → List Text → List Partition → List Partition
unfolding is_pseudo_fs_type
usage_jobs skip_pseudo seen [] = []
usage_jobs skip_pseudo seen (p ∷ parts) =
    let mp = trim_space p.mountpoint in
    let known = is_empty mp || exists_in (text_eq mp) seen in
    let rest = usage_jobs skip_pseudo (if known then seen else mp ∷ seen) parts in
    if known || skip_pseudo && is_pseudo_fs_type p.fs_type
    then rest
    else record p { mountpoint = mp } ∷ rest
