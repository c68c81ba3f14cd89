-- ===== src/SelfUpdate/Windows/Staged.antt =====
-- That an update that was staged is installed, and that no failure loses the node's binary.
use ithiltir_node.Base.{
  ℕ, zero, suc, ◌*◌, ◌≡◌, ◌⊎◌, inl, inr, refl, ◌∙◌, Bool, true, false, Option, none, some, List,
  Text, trim_space, second, Result, ok, err, >>=-eq-ok, fail_if, is_empty, Bool-cases, arith,
}
use ithiltir_node.ReportCfg.{Url}
use ithiltir_node.Push.Update.{Manifest}
use ithiltir_node.SelfUpdate.{
  UpdateError, Fetched, download, validate, check_version, check_asset, sha_empty,
}
use ithiltir_node.SelfUpdate.Paths.{fail_if_ok}
use ithiltir_node.SelfUpdate.Unix.Atomic.{IsVerified, download-IsVerified}
use ithiltir_node.SelfUpdate.Windows.{
  StagedManifest, absent, unreadable, staged, Disk, WindowsStep, stat_bin, restore_bin, backup_bin,
  stat_exe, bin_dir, replace_bin, without_manifest, without_exe, cleanup_staged, stage_fetched,
  stage_windows, without_old, without_backup, has_bin, restore, replace, swap, is_verified,
  check_exe, apply_manifest, apply_staged, next_backoff, backoff_after,
}

-- The pause of the runner doubles from a second and stays at 32 seconds from the sixth start on.
backoff_settles : (n : ℕ) → backoff_after (suc (suc (suc (suc (suc n))))) ≡ 32 * second
unfolding backoff_after next_backoff
backoff_settles zero = refl
backoff_settles (suc n) = rw (backoff_settles n) refl

module _ (fails : WindowsStep → Bool) where
  cleanup_bin : (d : Disk) → (cleanup_staged fails d).bin ≡ d.bin
  unfolding cleanup_staged without_manifest without_exe
  cleanup_bin d = ground arith

  old_kept : (d : Disk) → ((without_old fails d).bin ≡ d.bin) × ((without_old fails d).exe ≡ d.exe)
  unfolding without_old
  old_kept d = (ground arith, ground arith)

  replaced_bin : (d : Disk) → fails replace_bin ≡ false → (replace fails d).0.bin ≡ d.exe
  unfolding replace without_manifest without_backup
  replaced_bin d h = ground arith

  restored_bin :
      (d : Disk) (old : List ℕ)
      → fails replace_bin ≡ true
      → fails restore_bin ≡ false
      → d.backup ≡ some old
      → (replace fails d).0.bin ≡ some old
  unfolding replace restore
  restored_bin d old h r b = rw (h, r, b) refl

  found :
      (d : Disk) (old : List ℕ) → d.bin ≡ some old → fails stat_bin ≡ false → has_bin fails d ≡ true
  unfolding has_bin
  found d old b s = rw (b, s) refl

  -- The binary after the swap is the old one or the staged one.
  swap_bin :
      (d : Disk) (old : List ℕ)
      → d.bin ≡ some old
      → fails stat_bin ≡ false
      → fails restore_bin ≡ false
      → ((swap fails d).0.bin ≡ some old) ⊎ ((swap fails d).0.bin ≡ d.exe)
  unfolding swap
  swap_bin d old b s r =
      let d' = without_old fails d in
      let (same, exe) = old_kept d in
      let there = found d' old (same ∙ b) s in
      let moved : Disk = record d' { backup = d'.bin; bin = none } in
      elim (Bool-cases (fails bin_dir)) [
        | inl e ↦ rw e (inl b)
        | inr e ↦ elim (Bool-cases (fails backup_bin)) [
          | inl f ↦ rw (e, there, f) (inl (same ∙ b))
          | inr f ↦ elim (Bool-cases (fails replace_bin)) [
            | inl g ↦ rw (e, there, f) (inl (restored_bin moved old g r (same ∙ b)))
            | inr g ↦ rw (e, there, f) (inr (replaced_bin moved g ∙ exe))
          ]
        ]
      ]

  module _ (sum : List ℕ → Text) (equal_fold : Text → Text → Bool) where
    -- The staged binary, and that its hash is that of the staged manifest.
    abbrev pub IsStaged : Disk → List ℕ → Type 0
    IsStaged d bytes =
        (d.exe ≡ some bytes)
        × ((version : Text) × (want : Text) × (d.manifest ≡ staged version want)
            × (equal_fold (sum bytes) (trim_space want) ≡ true))

    verified_sum :
        (bytes : List ℕ) (want : Text)
        → is_verified fails sum equal_fold bytes want ≡ true
        → equal_fold (sum bytes) (trim_space want) ≡ true
    unfolding is_verified
    verified_sum bytes want h = ground arith

    check_bin :
        (version want : Text) (exe : Option (List ℕ)) (d : Disk) (old : List ℕ)
        → d.manifest ≡ staged version want
        → d.exe ≡ exe
        → d.bin ≡ some old
        → fails stat_bin ≡ false
        → fails restore_bin ≡ false
        → ((check_exe fails sum equal_fold want exe d).0.bin ≡ some old)
          ⊎ ((bytes : List ℕ) × ((check_exe fails sum equal_fold want exe d).0.bin ≡ some bytes)
              × IsStaged d bytes)
    unfolding check_exe
    check_bin version want none d old m x b s r = inl (cleanup_bin d ∙ b)
    check_bin version want (some bytes) d old m x b s r = elim (Bool-cases (fails stat_exe)) [
      | inl e ↦ rw e (inl b)
      | inr e ↦ elim (Bool-cases (is_verified fails sum equal_fold bytes want)) [
        | inr f ↦ rw (e, f) (inl (cleanup_bin d ∙ b))
        | inl f ↦ elim (swap_bin d old b s r) [
          | inl same ↦ rw (e, f) (inl same)
          | inr new ↦
              rw (e, f) (inr (bytes, new ∙ x, (x, (version, want, m, verified_sum bytes want f))))
        ]
      ]
    ]

    manifest_bin :
        (m : StagedManifest) (d : Disk) (old : List ℕ)
        → d.manifest ≡ m
        → d.bin ≡ some old
        → fails stat_bin ≡ false
        → fails restore_bin ≡ false
        → ((apply_manifest fails sum equal_fold m d).0.bin ≡ some old)
          ⊎ ((bytes : List ℕ) × ((apply_manifest fails sum equal_fold m d).0.bin ≡ some bytes)
              × IsStaged d bytes)
    unfolding apply_manifest
    manifest_bin absent d old m b s r = inl b
    manifest_bin unreadable d old m b s r = inl (cleanup_bin d ∙ b)
    manifest_bin (staged version want) d old m b s r =
        elim (Bool-cases (is_empty (trim_space want))) [
          | inl e ↦ rw e (inl (cleanup_bin d ∙ b))
          | inr e ↦ rw e (check_bin version want d.exe d old m refl b s r)
        ]

    -- Whatever else fails, as long as the old binary is found and can be put back, applyStaged
    -- leaves the node's binary as it was or replaces it by the staged one, whose hash is that of
    -- the staged manifest.
    pub apply_staged_safe :
        (d : Disk) (old : List ℕ)
        → d.bin ≡ some old
        → fails stat_bin ≡ false
        → fails restore_bin ≡ false
        → ((apply_staged fails sum equal_fold d).0.bin ≡ some old)
          ⊎ ((bytes : List ℕ) × ((apply_staged fails sum equal_fold d).0.bin ≡ some bytes)
              × IsStaged d bytes)
    unfolding apply_staged
    apply_staged_safe d old b s r = manifest_bin d.manifest d old refl b s r

module _ (sum : List ℕ → Text) (equal_fold : Text → Text → Bool) where
  filled_sha : (m : Manifest) → check_asset m ≡ ok tt → is_empty (trim_space m.sha256) ≡ false
  unfolding check_asset
  filled_sha m h =
      let (u, e, _) = >>=-eq-ok (fail_if (is_empty (trim_space m.sha256)) sha_empty) _ h in
      fail_if_ok _ _ u e

  staged_files :
      (fails : WindowsStep → Bool) (m : Manifest) (fetched : Result UpdateError (List ℕ)) (d : Disk)
      → (stage_windows fails m fetched d).1 ≡ true
      → (bytes : List ℕ) × (fetched ≡ ok bytes)
        × ((stage_windows fails m fetched d).0.exe ≡ some bytes)
        × ((stage_windows fails m fetched d).0.manifest ≡ staged m.version m.sha256)
  unfolding stage_windows stage_fetched
  staged_files fails m (err e) d h = ground arith
  staged_files fails m (ok bytes) d h = (bytes, refl, ground arith, ground arith)

  apply_all :
      (d : Disk) (bytes : List ℕ) (version want : Text)
      → d.exe ≡ some bytes
      → d.manifest ≡ staged version want
      → is_empty (trim_space want) ≡ false
      → equal_fold (sum bytes) (trim_space want) ≡ true
      → ((apply_staged (λ step. false) sum equal_fold d).0.bin ≡ some bytes)
        × ((apply_staged (λ step. false) sum equal_fold d).0.manifest ≡ absent)
        × ((apply_staged (λ step. false) sum equal_fold d).1 ≡ true)
  unfolding apply_staged apply_manifest check_exe is_verified swap replace without_old
      without_backup without_manifest has_bin
  apply_all d bytes version want x m f v = ground arith

  -- If stageWindows reports no error, its manifest passed the checks and no step of applyStaged
  -- fails, then the runner installs the bytes that were downloaded, with the size and the hash of
  -- the manifest, and the manifest is gone.
  pub apply_staged-stage_windows :
      (parse_url : Text → Option Url) (fails : WindowsStep → Bool) (m : Manifest) (f : Fetched)
      (d : Disk)
      → validate parse_url m ≡ ok tt
      → (stage_windows fails m (download sum equal_fold f m) d).1 ≡ true
      → let d' = (stage_windows fails m (download sum equal_fold f m) d).0 in
        (bytes : List ℕ) × IsVerified sum equal_fold m bytes
        × ((apply_staged (λ step. false) sum equal_fold d').0.bin ≡ some bytes)
        × ((apply_staged (λ step. false) sum equal_fold d').0.manifest ≡ absent)
  unfolding validate
  apply_staged-stage_windows parse_url fails m f d passed h =
      let (_, _, rest) = >>=-eq-ok (check_version m.version) _ passed in
      let (_, asset, _) = >>=-eq-ok (check_asset m) _ rest in
      let (bytes, fetched, exe, manifest) =
        staged_files fails m (download sum equal_fold f m) d h in
      let v = download-IsVerified sum equal_fold f m bytes fetched in
      let (bin, gone, _) =
        apply_all (stage_windows fails m (download sum equal_fold f m) d).0 bytes m.version m.sha256
          exe manifest (filled_sha m asset) v.digest in
      (bytes, v, bin, gone)
