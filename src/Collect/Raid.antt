-- ===== src/Collect/Raid.antt =====
-- internal/collect/raid_snapshot.go and storage_raid_linux.go: the arrays of disks, from the texts
-- of /proc/mdstat and of zpool, which are ASCII. The states of a member and the health, which the
-- source keeps as strings, are data.
pub mod Md
pub mod Zfs
pub mod Whole
mod Examples
use ithiltir_node.Base.{
  ℕ, suc, ◌+◌, ◌-◌, Bool, true, false, ◌&&◌, ◌||◌, Option, none, some, List, [], ◌∷◌, ◌++◌, Text,
  codes, ℤ, pos, negsuc, leb, ◌==◌, if◌then◌else◌, is_some, length, before_suffix, cut_at,
}

pub data MemberState : Type 0 where
  up down unclear : MemberState

pub data Health : Type 0 where
  healthy degraded unknown_health : Health

-- metrics.RaidMember.
pub record Member : Type 0 where
  pub name : Text
  pub state : MemberState

-- raidArraySnapshot.
pub record RaidArray : Type 0 where
  pub name : Text
  pub level : Text
  pub status : Text
  pub devices : ℤ
  pub active : ℤ
  pub working : ℤ
  pub failed_count : ℕ
  pub health : Health
  pub members : List Member
  pub sync_status : Text
  pub sync_progress : Text

-- raidSnapshot.
pub record RaidSnapshot : Type 0 where
  pub supported : Bool
  pub available : Bool
  pub arrays : List RaidArray

-- `n - m` as an int.
unfoldable pub difference : ℕ → ℕ → ℤ
difference n m = if leb m n then pos (n - m) else negsuc (m - n - 1)

-- The members that are in a state.
unfoldable pub in_state : (MemberState → Bool) → List Member → ℕ
in_state test [] = 0
in_state test (m ∷ ms) = let rest = in_state test ms in if test m.state then suc rest else rest

abbrev pub is_up : MemberState → Bool
is_up up = true
is_up down = false
is_up unclear = false

abbrev pub is_down : MemberState → Bool
is_down up = false
is_down down = true
is_down unclear = false

-- strings.HasSuffix, the suffix first.
unfoldable pub ends_with : Text → Text → Bool
ends_with p s = is_some (before_suffix p s)

is_ratio : ℕ → Bool
is_ratio c = leb b'0' c && leb c b'9' || c == b'.'

-- The digits and dots at the end of a text.
tail_ratio : Text → Text
unfolding is_ratio
tail_ratio [] = []
tail_ratio (c ∷ s) =
    let rest = tail_ratio s in if is_ratio c && length rest == length s then c ∷ rest else rest

percent : Text → Text
percent [] = []
percent (c ∷ s) = (c ∷ s) ++ codes "%"

before_percent : Option (Text × Text) → Text
unfolding tail_ratio percent
before_percent none = []
before_percent (some (before, _)) = percent (tail_ratio before)

-- The number before the first `%`, with it; empty if there is none.
unfoldable pub progress : Text → Text
unfolding before_percent
progress s = before_percent (cut_at b'%' s)

-- strings.ToLower and strings.ToUpper.
unfoldable pub to_lower : Text → Text
to_lower [] = []
to_lower (c ∷ s) = (if leb b'A' c && leb c b'Z' then c + 32 else c) ∷ to_lower s

unfoldable pub to_upper : Text → Text
to_upper [] = []
to_upper (c ∷ s) = (if leb b'a' c && leb c b'z' then c - 32 else c) ∷ to_upper s
