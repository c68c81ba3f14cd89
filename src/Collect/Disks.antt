-- ===== src/Collect/Disks.antt =====
-- internal/collect/disk_kind.go, and of disk_baseio.go the candidates, their roles and their order;
-- uniqueStrings, buildDevicePath on Linux and buildRef of disk_device.go.
pub mod Roles
use ithiltir_node.Base.{
  ℕ, ◌+◌, Bool, true, false, ◌&&◌, ◌||◌, not, Option, none, some, List, [], ◌∷◌, ◌++◌, Text, codes,
  text_eq, trim_space, ltb, ◌==◌, if◌then◌else◌, is_empty, exists_in,
}

data LogicalAction : Type 0 where
  logical_skip logical_add logical_disk : LogicalAction

-- diskKindInfo; a negative roleScore is `none`.
record DiskKindInfo : Type 0 where
  pub logical : Text
  pub ref : Text
  pub mounts : Bool
  pub device_path : Bool
  pub action : LogicalAction
  pub higher_level : Bool
  pub raid_devices : Bool
  pub base_kind : Text
  pub role_score : Option ℕ

-- The zero value but for the names.
abbrev plain_kind : Text → Text → DiskKindInfo
plain_kind logical ref = record {
  logical = logical;
  ref = ref;
  mounts = false;
  device_path = false;
  action = logical_skip;
  higher_level = false;
  raid_devices = false;
  base_kind = [];
  role_score = none;
}

abbrev disk_kind : DiskKindInfo
disk_kind = record (plain_kind (codes "disk") (codes "disk")) {
  mounts = true;
  device_path = true;
  action = logical_disk;
  role_score = some 0;
}

abbrev raid_kind : DiskKindInfo
raid_kind = record (plain_kind (codes "raid_md") (codes "raid")) {
  mounts = true;
  device_path = true;
  action = logical_add;
  raid_devices = true;
}

abbrev raid_md_kind : DiskKindInfo
raid_md_kind = record (plain_kind (codes "raid_md") (codes "raid")) {
  mounts = true;
  device_path = true;
  higher_level = true;
  base_kind = codes "raid";
  role_score = some 40;
}

abbrev zfs_pool_kind : DiskKindInfo
zfs_pool_kind = record (plain_kind (codes "zfs_pool") (codes "zfs")) {
  mounts = true;
  action = logical_add;
  higher_level = true;
  raid_devices = true;
  base_kind = codes "logical";
  role_score = some 50;
}

abbrev lvm_vg_kind : DiskKindInfo
lvm_vg_kind = record (plain_kind (codes "lvm_vg") (codes "lvm_vg")) {
  mounts = true;
  action = logical_add;
  higher_level = true;
}

abbrev lvm_thinpool_kind : DiskKindInfo
lvm_thinpool_kind = record (plain_kind (codes "lvm_thinpool") (codes "lvm_thinpool")) {
  mounts = true;
  action = logical_add;
}

abbrev disk_kind_table : List (Text × DiskKindInfo)
disk_kind_table =
    (codes "disk", disk_kind)
    ∷ (codes "raid", raid_kind)
    ∷ (codes "raid_md", raid_md_kind)
    ∷ (codes "zfs_pool", zfs_pool_kind)
    ∷ (codes "lvm_vg", lvm_vg_kind)
    ∷ (codes "lvm_thinpool", lvm_thinpool_kind)
    ∷ []

-- A map with text keys.
lookup_text {ℓ} : {A : Type ℓ} → Text → List (Text × A) → Option A
lookup_text k [] = none
lookup_text k ((j, a) ∷ m) = if text_eq k j then some a else lookup_text k m

or_else {ℓ} : {A : Type ℓ} → Option A → A → A
or_else none a = a
or_else (some b) a = b

kind_info : Text → DiskKindInfo
unfolding lookup_text or_else
kind_info kind =
    or_else (lookup_text kind disk_kind_table)
      (record (plain_kind kind kind) { device_path = true })

role_priority : Text → ℕ
unfolding lookup_text or_else
role_priority role =
    or_else (lookup_text role ((codes "primary", 0) ∷ (codes "secondary", 1) ∷ [])) 2

kind_priority : Text → ℕ
unfolding lookup_text or_else
kind_priority kind =
    or_else
      (lookup_text kind ((codes "raid", 0) ∷ (codes "logical", 1) ∷ (codes "physical", 2) ∷ [])) 9

-- uniqueStrings; `seen` is the map.
unique_strings : List Text → List Text → List Text
unique_strings seen [] = []
unique_strings seen (raw ∷ raws) =
    let s = trim_space raw in
    let known = is_empty s || exists_in (text_eq s) seen in
    let rest = unique_strings (if known then seen else s ∷ seen) raws in
    if known then rest else s ∷ rest

build_device_path : Text → Text
build_device_path name =
    if is_empty name || exists_in (λ c. c == 47) name then [] else codes "/dev/" ++ name

build_ref : Text → Text → Text
build_ref kind raw =
    let name = trim_space raw in
    if is_empty kind || is_empty name then [] else kind ++ codes ":" ++ name

-- StaticDiskBaseIO.
pub record BaseIo : Type 0 where
  pub kind : Text
  pub name : Text
  pub device_path : Text
  pub ref : Text
  pub role : Text

-- What buildBaseIOCandidates reads of a logical snapshot.
pub record Logical : Type 0 where
  pub kind : Text
  pub name : Text
  pub device_path : Text

pub candidate_of : Logical → BaseIo
unfolding kind_info build_device_path build_ref
candidate_of l =
    let info = kind_info l.kind in
    record {
      kind = info.base_kind;
      name = l.name;
      device_path =
          if text_eq info.base_kind (codes "raid") then build_device_path l.name else l.device_path;
      ref = build_ref info.ref l.name;
      role = [];
    }

base_candidates : List Logical → List BaseIo
unfolding candidate_of kind_info
base_candidates [] = []
base_candidates (l ∷ logical) =
    if is_empty (trim_space l.name) || is_empty (kind_info l.kind).base_kind
    then base_candidates logical
    else candidate_of l ∷ base_candidates logical

-- `scores[name]`
pub score_of : List (Text × ℕ) → Text → ℕ
unfolding lookup_text or_else
score_of scores name = or_else (lookup_text name scores) 0

-- The first loop of applyRoles: the index and the score of the best so far.
pub best_index : List (Text × ℕ) → List BaseIo → ℕ → ℕ → ℕ → ℕ
unfolding score_of
best_index scores [] i best score = best
best_index scores (c ∷ cs) i best score =
    let better = ltb score (score_of scores c.name) in
    best_index scores cs (i + 1) (if better then i else best)
      (if better then score_of scores c.name else score)

pub set_roles : ℕ → ℕ → List BaseIo → List BaseIo
set_roles best i [] = []
set_roles best i (c ∷ cs) =
    record c { role = if i == best then codes "primary" else codes "secondary" }
    ∷ set_roles best (i + 1) cs

-- applyRoles.
pub apply_roles : List (Text × ℕ) → List BaseIo → List BaseIo
unfolding best_index set_roles
apply_roles scores cs = set_roles (best_index scores cs 0 0 0) 0 cs

-- `a < b` on strings: the order of UTF-8 bytes is that of code points.
text_lt : Text → Text → Bool
text_lt s [] = false
text_lt [] (d ∷ t) = true
text_lt (c ∷ s) (d ∷ t) = ltb c d || c == d && text_lt s t

-- The comparison of sortBaseIO.
is_less : BaseIo → BaseIo → Bool
unfolding role_priority kind_priority text_lt
is_less a b =
    if not (role_priority a.role == role_priority b.role)
    then ltb (role_priority a.role) (role_priority b.role)
    else if not (kind_priority a.kind == kind_priority b.kind)
    then ltb (kind_priority a.kind) (kind_priority b.kind)
    else text_lt a.name b.name
