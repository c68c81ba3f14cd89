-- ===== src/SelfUpdate/Windows.antt =====
-- stageWindows of internal/selfupdate/update.go, and applyStaged and the pauses of loop of
-- internal/runner/runner_windows.go: the node stages an update, the runner installs it before it
-- starts the node again. The staged manifest is its decoded content.
pub mod Staged
use ithiltir_node.Base.{
  ℕ, zero, suc, ◌*◌, Bool, true, false, ◌&&◌, ◌||◌, not, Option, none, some, List, Text, trim_space,
  Time, second, ltb, if◌then◌else◌, Result, ok, err, is_empty, is_some,
}
use ithiltir_node.Push.Update.{Manifest}
use ithiltir_node.SelfUpdate.{UpdateError}

pub data StagedManifest : Type 0 where
  absent unreadable : StagedManifest
  staged : Text → Text → StagedManifest

-- The files: the node's binary and its backup, the staged binary, and its manifest.
pub record Disk : Type 0 where
  pub bin : Option (List ℕ)
  pub backup : Option (List ℕ)
  pub exe : Option (List ℕ)
  pub manifest : StagedManifest

pub data WindowsStep : Type 0 where
  staging_dir remove_manifest remove_exe create_temp close_temp stage_exe encode_manifest
        write_manifest :
      WindowsStep
  stat_exe open_exe bin_dir remove_old stat_bin backup_bin replace_bin restore_bin remove_backup :
      WindowsStep

module _ (fails : WindowsStep → Bool) where
  pub without_manifest : Disk → Disk
  without_manifest d = if fails remove_manifest then d else record d { manifest = absent }

  pub without_exe : Disk → Disk
  without_exe d = if fails remove_exe then d else record d { exe = none }

  -- cleanupStaged, and the start of stageWindows.
  pub cleanup_staged : Disk → Disk
  unfolding without_manifest without_exe
  cleanup_staged d = without_exe (without_manifest d)

  pub stage_fetched : Manifest → Result UpdateError (List ℕ) → Disk → Disk × Bool
  stage_fetched m (err e) d = (d, false)
  stage_fetched m (ok bytes) d =
      if fails close_temp || fails stage_exe
      then (d, false)
      else if fails encode_manifest || fails write_manifest
      then (record d { exe = some bytes }, false)
      else (record d { exe = some bytes; manifest = staged m.version m.sha256 }, true)

  -- stageWindows: the files, and whether there was no error.
  unfoldable pub stage_windows : Manifest → Result UpdateError (List ℕ) → Disk → Disk × Bool
  unfolding cleanup_staged stage_fetched
  stage_windows m fetched d =
      if fails staging_dir
      then (d, false)
      else if fails create_temp
      then (cleanup_staged d, false)
      else stage_fetched m fetched (cleanup_staged d)

  pub without_old : Disk → Disk
  without_old d = if fails remove_old then d else record d { backup = none }

  pub without_backup : Disk → Disk
  without_backup d = if fails remove_backup then d else record d { backup = none }

  -- Whether the old binary is found.
  pub has_bin : Disk → Bool
  has_bin d = is_some d.bin && not (fails stat_bin)

  -- os.Rename(backup, bin)
  pub restore : Disk → Disk
  restore d =
      if fails restore_bin || not (is_some d.backup)
      then d
      else record d { bin = d.backup; backup = none }

  pub replace : Disk → Disk × Bool
  unfolding restore without_backup without_manifest
  replace d =
      if fails replace_bin
      then (restore d, false)
      else (without_manifest (without_backup (record d { bin = d.exe; exe = none })), true)

  -- The part of applyStaged after the checks.
  pub swap : Disk → Disk × Bool
  unfolding without_old replace has_bin
  swap d =
      let d' = without_old d in
      if fails bin_dir
      then (d, false)
      else if has_bin d'
      then (if fails backup_bin
          then (d', false)
          else replace (record d' { backup = d'.bin; bin = none }))
      else replace d'

  module _ (sum : List ℕ → Text) (equal_fold : Text → Text → Bool) where
    -- verify
    pub is_verified : List ℕ → Text → Bool
    is_verified bytes want = not (fails open_exe) && equal_fold (sum bytes) (trim_space want)

    pub check_exe : Text → Option (List ℕ) → Disk → Disk × Bool
    unfolding cleanup_staged swap is_verified
    check_exe want none d = (cleanup_staged d, false)
    check_exe want (some bytes) d =
        if fails stat_exe
        then (d, false)
        else if is_verified bytes want
        then swap d
        else (cleanup_staged d, false)

    pub apply_manifest : StagedManifest → Disk → Disk × Bool
    unfolding cleanup_staged check_exe
    apply_manifest absent d = (d, true)
    apply_manifest unreadable d = (cleanup_staged d, false)
    apply_manifest (staged version want) d =
        if is_empty (trim_space want) then (cleanup_staged d, false) else check_exe want d.exe d

    -- applyStaged: the files, and whether there was no error.
    pub apply_staged : Disk → Disk × Bool
    unfolding apply_manifest
    apply_staged d = apply_manifest d.manifest d

-- The pause of loop before the next start.
pub next_backoff : Time → Time
next_backoff backoff = if ltb backoff (30 * second) then backoff * 2 else backoff

pub backoff_after : ℕ → Time
unfolding next_backoff
backoff_after zero = second
backoff_after (suc starts) = next_backoff (backoff_after starts)
