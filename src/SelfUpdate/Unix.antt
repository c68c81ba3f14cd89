-- ===== src/SelfUpdate/Unix.antt =====
-- applyUnix and switchCurrent: the release directory, and the link to the current release. What is
-- on the disk after each change is kept, since the process can end between any two.
pub mod Atomic
use ithiltir_node.Base.{
  ℕ, Bool, false, ◌||◌, Option, none, some, List, [], ◌∷◌, Text, text_eq, if◌then◌else◌, Result, ok,
  err,
}
use ithiltir_node.Push.Update.{Manifest}
use ithiltir_node.SelfUpdate.{UpdateError, Dir, release_dir, unix_release_version, join, node_name}

-- The binaries by their version, and the release directory that `current` links to.
pub record Home : Type 0 where
  pub binaries : List (Text × List ℕ)
  pub link : Option Dir

pub find_binary : Text → List (Text × List ℕ) → Option (List ℕ)
find_binary version [] = none
find_binary version ((v, bytes) ∷ rest) =
    if text_eq version v then some bytes else find_binary version rest

-- os.Rename onto the binary of a release.
pub put_binary : Text → List ℕ → List (Text × List ℕ) → List (Text × List ℕ)
put_binary version bytes [] = (version, bytes) ∷ []
put_binary version bytes ((v, old) ∷ rest) =
    if text_eq version v then (v, bytes) ∷ rest else (v, old) ∷ put_binary version bytes rest

-- currentUnixVersion.
pub current_unix_version : Dir → Option Dir → Option Text
current_unix_version dir none = none
current_unix_version dir (some target) = unix_release_version dir (join target node_name)

pub binary_of : Option Text → List (Text × List ℕ) → Option (List ℕ)
unfolding find_binary
binary_of none binaries = none
binary_of (some version) binaries = find_binary version binaries

-- The steps that can fail besides the download.
pub data UnixStep : Type 0 where
  make_dir create_temp close_temp install_binary stage_link switch_link : UnixStep

pub data Applied : Type 0 where
  unchanged restart failed : Applied

module _ (dir : Dir) where
  -- switchCurrent: the states of the disk that it goes through.
  pub switch_current : (UnixStep → Bool) → Dir → Home → List Home × Applied
  switch_current fails target h =
      if fails stage_link || fails switch_link
      then ([], failed)
      else (record h { link = some target } ∷ [], restart)

  pub install : (UnixStep → Bool) → Manifest → List ℕ → Home → List Home × Applied
  unfolding put_binary switch_current
  install fails m bytes h =
      let h' : Home = record h { binaries = put_binary m.version bytes h.binaries } in
      let (states, outcome) = switch_current fails (release_dir dir m.version) h' in
      if fails close_temp || fails install_binary then ([], failed) else (h' ∷ states, outcome)

  pub install_fetched :
      (UnixStep → Bool) → Manifest → Result UpdateError (List ℕ) → Home → List Home × Applied
  unfolding install
  install_fetched fails m (err e) h = ([], failed)
  install_fetched fails m (ok bytes) h = install fails m bytes h

  is_active : Option Text → Text → Bool
  is_active none version = false
  is_active (some v) version = text_eq v version

  -- applyUnix, with the version that runs; the states of the disk, and the result.
  pub apply_unix :
      (UnixStep → Bool)
      → Option Text
      → Manifest
      → Result UpdateError (List ℕ)
      → Home
      → List Home × Applied
  unfolding install_fetched is_active
  apply_unix fails active m fetched h =
      if is_active active m.version
      then ([], unchanged)
      else if fails make_dir || fails create_temp
      then ([], failed)
      else install_fetched fails m fetched h

  -- The binary that a start through `current` runs.
  pub current_binary : Home → Option (List ℕ)
  unfolding current_unix_version
  current_binary h = binary_of (current_unix_version dir h.link) h.binaries
