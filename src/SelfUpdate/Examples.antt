-- ===== src/SelfUpdate/Examples.antt =====
-- The theorems on updates at one of three bytes. The hash of bytes is their number here, in one
-- letter each, and a URL has its scheme and its host.
use ithiltir_node.Base.{
  ℕ, ◌≡◌, ◌⊎◌, refl, Bool, true, false, Option, none, some, List, [], ◌∷◌, ◌++◌, Text, codes,
  text_eq, trim_space, byte_length, pos, wrap_int, ok, All,
}
use ithiltir_node.ReportCfg.{Url}
use ithiltir_node.Push.Update.{Manifest}
use ithiltir_node.SelfUpdate.{
  Fetched, validate, check_version, check_asset, check_url, has_separator, is_separator,
  is_too_large, int_leb, download, check_copy, limit, Dir, releases_dir, release_dir,
  release_node_path, unix_release_version,
}
use ithiltir_node.SelfUpdate.Paths.{release-validate}
use ithiltir_node.SelfUpdate.Unix.{Home, UnixStep, apply_unix}
use ithiltir_node.SelfUpdate.Unix.Atomic.{IsSafe, IsVerified, apply_unix-IsSafe}
use ithiltir_node.SelfUpdate.Windows.{
  Disk, WindowsStep, absent, staged, stage_windows, apply_staged,
}
use ithiltir_node.SelfUpdate.Windows.Staged.{
  IsStaged, apply_staged_safe, apply_staged-stage_windows,
}

abbrev some_url : Text → Option Url
some_url s = some (record { scheme = codes "https"; host = codes "example.org" })

abbrev digest : Text
digest = codes "0123456789abcdef0123456789abcdef0123456789abcdef0123456789abcdef"

abbrev one_sum : List ℕ → Text
one_sum bytes = digest

abbrev update : Manifest
update = record {
  id = codes "7";
  version = codes "1.2.0";
  url = codes "https://example.org/node";
  sha256 = digest;
  size = pos 3;
  secret = [];
}

abbrev home : Dir
home = codes "var" ∷ codes "lib" ∷ codes "ithiltir-node" ∷ []

abbrev fetched : Fetched
fetched = record {
  sent = true;
  status = 200;
  chmod_ok = true;
  body = 1 ∷ 2 ∷ 3 ∷ [];
  body_ok = true;
  sync_ok = true;
}

update_passes : validate some_url update ≡ ok tt
unfolding validate check_version check_asset check_url has_separator is_separator is_too_large
    int_leb text_eq trim_space byte_length wrap_int
update_passes = refl

release-validate_example :
    (release_dir home (codes "1.2.0") ≡ releases_dir home ++ codes "1.2.0" ∷ [])
    × (unix_release_version home (release_node_path home (codes "1.2.0")) ≡ some (codes "1.2.0"))
release-validate_example = release-validate some_url home update update_passes

abbrev old_home : Home
old_home = record {
  binaries = (codes "1.1.0", 9 ∷ []) ∷ [];
  link = some (release_dir home (codes "1.1.0"));
}

abbrev no_failure : UnixStep → Bool
no_failure step = false

apply_unix-IsSafe_example :
    All
      (IsSafe one_sum text_eq home update old_home)
      (apply_unix home no_failure
        (some (codes "1.1.0"))
        update
        (download one_sum text_eq fetched update)
        old_home).0
apply_unix-IsSafe_example =
    apply_unix-IsSafe one_sum text_eq home some_url no_failure (some (codes "1.1.0")) update fetched
      old_home update_passes

abbrev never_fails : WindowsStep → Bool
never_fails step = false

abbrev old_disk : Disk
old_disk = record { bin = some (9 ∷ []); backup = none; exe = none; manifest = absent }

abbrev staged_disk : Disk
staged_disk = record old_disk {
  exe = some (1 ∷ 2 ∷ 3 ∷ []);
  manifest = staged (codes "1.2.0") digest;
}

apply_staged_safe_example :
    ((apply_staged never_fails one_sum text_eq staged_disk).0.bin ≡ some (9 ∷ []))
    ⊎ ((bytes : List ℕ) × ((apply_staged never_fails one_sum text_eq staged_disk).0.bin
          ≡ some bytes)
        × IsStaged never_fails one_sum text_eq staged_disk bytes)
apply_staged_safe_example =
    apply_staged_safe never_fails one_sum text_eq staged_disk (9 ∷ []) refl refl refl

apply_staged-stage_windows_example :
    (bytes : List ℕ) × IsVerified one_sum text_eq update bytes
    × ((apply_staged
          (λ step. false)
          one_sum
          text_eq
          (stage_windows never_fails update
            (download one_sum text_eq fetched update)
            old_disk).0).0.bin
        ≡ some bytes)
    × ((apply_staged
          (λ step. false)
          one_sum
          text_eq
          (stage_windows never_fails update
            (download one_sum text_eq fetched update)
            old_disk).0).0.manifest
        ≡ absent)
unfolding stage_windows download check_copy limit text_eq trim_space
apply_staged-stage_windows_example =
    apply_staged-stage_windows one_sum text_eq some_url never_fails update fetched old_disk
      update_passes refl
