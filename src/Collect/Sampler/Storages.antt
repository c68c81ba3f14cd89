-- ===== src/Collect/Sampler/Storages.antt =====
-- internal/collect/sampler.go: the order of the storages in collectSlow, hasZFS, and the arrays and
-- filesystems of a report.
pub mod Sorted
use ithiltir_node.Base.{
  ℕ, Bool, false, ◌||◌, not, List, [], ◌∷◌, Text, codes, text_eq, text_less, ℤ, ltb, ◌==◌,
  if◌then◌else◌,
}
use ithiltir_node.Collect.Raid.{Member, RaidArray}

-- metrics.StorageUsage, what is read of it here.
record Storage (Rest : Type 0) : Type 0 where
  pub kind : Text
  pub name : Text
  pub rest : Rest

pub kind_rank : Text → ℕ
kind_rank k =
    if text_eq k (codes "zfs_pool")
    then 0
    else if text_eq k (codes "lvm_thinpool")
    then 1
    else if text_eq k (codes "raid")
    then 2
    else if text_eq k (codes "disk")
    then 3
    else 9

-- The order of sort.Slice, of the kinds and names.
pub comes_before : Text × Text → Text × Text → Bool
unfolding kind_rank text_less
comes_before (k, n) (j, m) =
    if not (kind_rank k == kind_rank j)
    then ltb (kind_rank k) (kind_rank j)
    else if text_eq k j
    then text_less n m
    else text_less k j

module _ {Rest : Type 0} where
  -- The less of sort.Slice.
  storage_before : Storage Rest → Storage Rest → Bool
  unfolding comes_before
  storage_before s t = comes_before (s.kind, s.name) (t.kind, t.name)

  -- hasZFS.
  has_zfs : List (Storage Rest) → Bool
  has_zfs [] = false
  has_zfs (s ∷ ss) = text_eq s.kind (codes "zfs_pool") || has_zfs ss

-- metrics.StaticRaidArray.
record StaticArray : Type 0 where
  pub array_name : Text
  pub array_level : Text
  pub array_devices : ℤ
  pub member_names : List Text

names_of : List Member → List Text
names_of [] = []
names_of (m ∷ ms) = m.name ∷ names_of ms

-- The loop over the arrays in Static.
static_arrays : List RaidArray → List StaticArray
unfolding names_of
static_arrays [] = []
static_arrays (a ∷ as_) =
    record {
      array_name = a.name;
      array_level = a.level;
      array_devices = a.devices;
      member_names = names_of a.members;
    }
    ∷ static_arrays as_
