-- ===== src/SelfUpdate/Unix/Atomic.antt =====
-- What a start runs, whenever an update is cut off.
use ithiltir_node.Base.{
  ℕ, ◌+◌, ◌≡◌, ◌⊎◌, inl, inr, refl, subst, Bool, true, false, ◌||◌, not, Option, some, List, [],
  ◌∷◌, Text, text_eq, text_eq_iff, text_eq_refl, trim_space, pos_part, ltb, ◌==◌, Result, ok, err,
  >>=-eq-ok, fail_if, length, All, Bool-cases, Option-cases, arith,
}
use ithiltir_node.ReportCfg.{Url}
use ithiltir_node.Push.Update.{Manifest}
use ithiltir_node.SelfUpdate.{
  UpdateError, Fetched, validate, check_version, download, check_copy, limit, Dir, release_dir,
  unix_release_version, join, node_name, release_node_path, not_sent, bad_status, not_chmod,
  not_written, not_synced, too_long, wrong_size,
}
use ithiltir_node.SelfUpdate.Paths.{IsComponent, release_lem, version-IsComponent, fail_if_ok}
use ithiltir_node.SelfUpdate.Unix.{
  Home, find_binary, put_binary, binary_of, current_unix_version, UnixStep, create_temp, make_dir,
  close_temp, install_binary, stage_link, switch_link, switch_current, install, install_fetched,
  is_active, apply_unix, current_binary,
}

find-put_same :
    (v : Text) (bytes : List ℕ) (bs : List (Text × List ℕ))
    → find_binary v (put_binary v bytes bs) ≡ some bytes
unfolding find_binary put_binary
find-put_same v bytes [] = rw (text_eq_refl v) refl
find-put_same v bytes ((w, old) ∷ bs) = elim (Bool-cases (text_eq v w)) [
  | inl e ↦ rw (e, e) refl
  | inr e ↦ rw (e, e) (find-put_same v bytes bs)
]

find-put_other :
    (x v : Text) (bytes : List ℕ) (bs : List (Text × List ℕ))
    → text_eq x v ≡ false
    → find_binary x (put_binary v bytes bs) ≡ find_binary x bs
unfolding find_binary put_binary
find-put_other x v bytes [] h = rw h refl
find-put_other x v bytes ((w, old) ∷ bs) h = elim (Bool-cases (text_eq v w)) [
  | inl e ↦
      let differs : text_eq x w ≡ false =
        subst (λ t. text_eq x t ≡ false) ((text_eq_iff v w).0 e) h in
      rw (e, differs) refl
  | inr e ↦ rw e (elim (Bool-cases (text_eq x w)) [
    | inl f ↦ rw f refl
    | inr f ↦ rw f (find-put_other x v bytes bs h)
  ])
]

ok_inj : (a b : List ℕ) → ◌≡◌ {A = Result UpdateError (List ℕ)} (ok a) (ok b) → a ≡ b
ok_inj a b h = ground arith

module _ (sum : List ℕ → Text) (equal_fold : Text → Text → Bool) where
  -- What the checks of download say of the bytes that are installed.
  pub record IsVerified (m : Manifest) (bytes : List ℕ) : Type 0 where
    pub size : length bytes ≡ pos_part m.size
    pub digest : equal_fold (sum bytes) (trim_space m.sha256) ≡ true

  check_copy_lem :
      (m : Manifest) (bytes : List ℕ)
      → check_copy sum equal_fold m bytes ≡ ok tt
      → IsVerified m bytes
  unfolding check_copy
  check_copy_lem m bytes h =
      let (_, _, rest) = >>=-eq-ok (fail_if (ltb (pos_part m.size) (length bytes)) too_long) _ h in
      let (u, same, last) =
        >>=-eq-ok (fail_if (not (length bytes == pos_part m.size)) wrong_size) _ rest in
      let size = fail_if_ok _ _ u same in
      let digest = fail_if_ok _ _ tt last in record { size = ground arith; digest = ground arith }

  -- What download leaves in the file has the manifest's size and hash.
  pub download-IsVerified :
      (f : Fetched) (m : Manifest) (bytes : List ℕ)
      → download sum equal_fold f m ≡ ok bytes
      → IsVerified m bytes
  unfolding download
  download-IsVerified f m bytes h =
      let copied = limit (pos_part m.size + 1) f.body in
      let (_, _, h₁) = >>=-eq-ok (fail_if (not f.sent) not_sent) _ h in
      let (_, _, h₂) = >>=-eq-ok (fail_if (not (f.status == 200)) bad_status) _ h₁ in
      let (_, _, h₃) = >>=-eq-ok (fail_if (not f.chmod_ok) not_chmod) _ h₂ in
      let (_, _, h₄) = >>=-eq-ok (fail_if (not f.body_ok) not_written) _ h₃ in
      let (u, checked, h₅) = >>=-eq-ok (check_copy sum equal_fold m copied) _ h₄ in
      let (_, _, same) = >>=-eq-ok (fail_if (not f.sync_ok) not_synced) _ h₅ in
      subst (IsVerified m) (ok_inj copied bytes same) (check_copy_lem m copied checked)

  module _ (dir : Dir) where
    -- A start runs what it ran before, or verified bytes of the update.
    abbrev pub IsSafe : Manifest → Home → Home → Type 0
    IsSafe m h h' =
        (current_binary dir h' ≡ current_binary dir h)
        ⊎ ((bytes : List ℕ) × (current_binary dir h' ≡ some bytes) × IsVerified m bytes)

    put-IsSafe :
        (m : Manifest) (bytes : List ℕ) (h : Home)
        → IsVerified m bytes
        → IsSafe m h (record h { binaries = put_binary m.version bytes h.binaries })
    unfolding current_binary binary_of
    put-IsSafe m bytes h v = elim (Option-cases (current_unix_version dir h.link)) [
      | inl e ↦ rw e (inl refl)
      | inr (w, e) ↦ elim (Bool-cases (text_eq w m.version)) [
        | inl f ↦ inr (
          bytes,
          rw (e, (text_eq_iff w m.version).0 f) (find-put_same m.version bytes h.binaries),
          v,
        )
        | inr f ↦ rw e (inl (find-put_other w m.version bytes h.binaries f))
      ]
    ]

    switched :
        (m : Manifest) (bytes : List ℕ) (h : Home)
        → IsComponent m.version
        → current_binary dir (record h {
          binaries = put_binary m.version bytes h.binaries;
          link = some (release_dir dir m.version);
        })
          ≡ some bytes
    unfolding current_binary current_unix_version binary_of
    switched m bytes h c =
        let at : unix_release_version dir (join (release_dir dir m.version) node_name)
            ≡ some m.version =
          unfold release_node_path in release_lem dir m.version c in
        rw at (find-put_same m.version bytes h.binaries)

    install-IsSafe :
        (fails : UnixStep → Bool) (m : Manifest) (bytes : List ℕ) (h : Home)
        → IsComponent m.version
        → IsVerified m bytes
        → All (IsSafe m h) (install dir fails m bytes h).0
    unfolding install switch_current
    install-IsSafe fails m bytes h c v =
        elim (Bool-cases (fails close_temp || fails install_binary)) [
          | inl e ↦ rw e tt
          | inr e ↦ elim (Bool-cases (fails stage_link || fails switch_link)) [
            | inl f ↦ rw (e, f) (put-IsSafe m bytes h v, tt)
            | inr f ↦ rw (e, f) (put-IsSafe m bytes h v, (inr (bytes, switched m bytes h c, v), tt))
          ]
        ]

    fetched-IsSafe :
        (fails : UnixStep → Bool) (m : Manifest) (fetched : Result UpdateError (List ℕ)) (h : Home)
        → IsComponent m.version
        → ((bytes : List ℕ) → fetched ≡ ok bytes → IsVerified m bytes)
        → All (IsSafe m h) (install_fetched dir fails m fetched h).0
    unfolding install_fetched
    fetched-IsSafe fails m (err e) h c v = tt
    fetched-IsSafe fails m (ok bytes) h c v = install-IsSafe fails m bytes h c (v bytes refl)

    apply-IsSafe :
        (fails : UnixStep → Bool) (active : Option Text) (m : Manifest)
        (fetched : Result UpdateError (List ℕ)) (h : Home)
        → IsComponent m.version
        → ((bytes : List ℕ) → fetched ≡ ok bytes → IsVerified m bytes)
        → All (IsSafe m h) (apply_unix dir fails active m fetched h).0
    unfolding apply_unix
    apply-IsSafe fails active m fetched h c v = elim (Bool-cases (is_active dir active m.version)) [
      | inl e ↦ rw e tt
      | inr e ↦ elim (Bool-cases (fails make_dir || fails create_temp)) [
        | inl f ↦ rw (e, f) tt
        | inr f ↦ rw (e, f) (fetched-IsSafe fails m fetched h c v)
      ]
    ]

    -- Whatever step of an update fails, and wherever the process is cut off, a start through
    -- `current` runs what it ran before, or the bytes of the update with the size and the hash of
    -- its manifest, if the manifest passed the checks.
    pub apply_unix-IsSafe :
        (parse_url : Text → Option Url) (fails : UnixStep → Bool) (active : Option Text)
        (m : Manifest) (f : Fetched) (h : Home)
        → validate parse_url m ≡ ok tt
        → All (IsSafe m h) (apply_unix dir fails active m (download sum equal_fold f m) h).0
    unfolding validate
    apply_unix-IsSafe parse_url fails active m f h passed =
        let (u, version, _) = >>=-eq-ok (check_version m.version) _ passed in
        apply-IsSafe fails active m (download sum equal_fold f m) h
          (version-IsComponent m.version version) (download-IsVerified f m)
