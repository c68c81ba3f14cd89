-- ===== src/Push/Update.antt =====
-- internal/push/push.go, updatePlan: the update manifests that the targets of one round offer.
pub mod Agreement
pub mod Conflict
pub mod Order
use ithiltir_node.Base.{
  Bool, true, false, ◌&&◌, not, Option, none, some, Text, text_eq, trim_space, ℤ, int_eq,
  if◌then◌else◌, is_empty,
}

pub record Manifest : Type 0 where
  pub id : Text
  pub version : Text
  pub url : Text
  pub sha256 : Text
  pub size : ℤ
  pub secret : Text

pub record Plan : Type 0 where
  pub manifest : Option Manifest
  pub conflict : Bool
  pub skipped_current : Bool

-- The zero updatePlan.
abbrev pub no_plan : Plan
no_plan = record { manifest = none; conflict = false; skipped_current = false }

unfoldable pub same_node_version : Text → Text → Bool
same_node_version update current =
    let u = trim_space update in let c = trim_space current in not (is_empty u) && text_eq u c

pub same_update_manifest : Manifest → Manifest → Bool
same_update_manifest a b =
    text_eq a.id b.id
    && text_eq a.version b.version
    && text_eq a.url b.url
    && text_eq a.sha256 b.sha256
    && int_eq a.size b.size

-- The end of add, on a manifest of another version.
pub select : Manifest → Text → Plan → Option Manifest → Plan
select m secret p none = record p { manifest = some (record m { secret = trim_space secret }) }
select m secret p (some chosen) =
    if same_update_manifest chosen m then p else record p { conflict = true }

-- updatePlan.add.
unfoldable pub add : Text → Option Manifest → Text → Plan → Plan
unfolding select
add current none secret p = p
add current (some m) secret p =
    if same_node_version m.version current
    then record p { skipped_current = true }
    else select m secret p p.manifest
