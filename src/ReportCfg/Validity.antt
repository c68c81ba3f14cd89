-- ===== src/ReportCfg/Validity.antt =====
-- Validate accepts exactly the valid configs.
use ithiltir_node.Base.{
  ◌≡◌, ◌≢◌, ◌⊎◌, ◌↔◌, inr, refl, Option, none, some, List, [], ◌∷◌, false, Text, codes, text_eq_iff,
  trim_space, trim_space_empty, ℤ, int_eq, int_eq_iff, All, arith, ok, >>=-eq-ok, subst, exists_in,
  is_empty, if◌then◌else◌,
}
use ithiltir_node.ReportCfg.{
  Url, Target, Config, config_version, check_url, validate_url, find_server, validate_target,
  track_server, validate_targets, validate,
}
use ithiltir_node.ReportCfg.Shape.{server, IsEndpoint, Apart, AllApart, IsProper, IsValid}

-- The maps of the loop hold neither the id nor the server of a target.
abbrev Fresh : List ℤ → List (Text × ℤ) → Target → Type 0
Fresh ids servers t =
    (exists_in (int_eq t.id) ids ≡ false)
    × ((server t ≡ []) ⊎ (find_server (server t) servers ≡ none))

-- The second map after a target.
abbrev note : Target → List (Text × ℤ) → List (Text × ℤ)
note t servers = if is_empty t.server_install_id then servers else (server t, t.id) ∷ servers

check_url_iff : (u : Option Url) → (check_url u ≡ ok tt) ↔ IsEndpoint u
unfolding check_url
check_url_iff none = ground arith
check_url_iff (some u) =
    ground (arith, text_eq_iff u.scheme (codes "http"), text_eq_iff u.scheme (codes "https"))

track_server_sound :
    (t : Target) (servers servers' : List (Text × ℤ))
    → track_server t servers ≡ ok servers'
    → ((t.server_install_id ≡ []) ⊎ (server t ≢ []))
      × ((server t ≡ []) ⊎ (find_server (server t) servers ≡ none))
      × (servers' ≡ note t servers)
unfolding track_server
track_server_sound t servers servers' h = ground (arith, trim_space_empty t.server_install_id)

track_server_complete :
    (t : Target) (servers : List (Text × ℤ))
    → (t.server_install_id ≡ []) ⊎ (server t ≢ [])
    → (server t ≡ []) ⊎ (find_server (server t) servers ≡ none)
    → track_server t servers ≡ ok (note t servers)
unfolding track_server
track_server_complete t servers named fresh = ground (arith, trim_space_empty t.server_install_id)

module _ (parse_url : Text → Option Url) where
  validate_url_iff :
      (raw : Text)
      → (validate_url parse_url raw ≡ ok tt)
        ↔ ((trim_space raw ≢ []) × IsEndpoint (parse_url (trim_space raw)))
  unfolding validate_url
  validate_url_iff raw = ground (arith, check_url_iff (parse_url (trim_space raw)))

  validate_target_sound :
      (ids : List ℤ) (servers servers' : List (Text × ℤ)) (t : Target)
      → validate_target parse_url ids servers t ≡ ok servers'
      → IsProper parse_url t × Fresh ids servers t × (servers' ≡ note t servers)
  unfolding validate_target
  validate_target_sound ids servers servers' t h =
      ground (arith, validate_url_iff t.url, track_server_sound t servers servers')

  validate_target_complete :
      (ids : List ℤ) (servers : List (Text × ℤ)) (t : Target)
      → IsProper parse_url t
      → Fresh ids servers t
      → validate_target parse_url ids servers t ≡ ok (note t servers)
  unfolding validate_target
  validate_target_complete ids servers t p f =
      ground (arith, validate_url_iff t.url, track_server_complete t servers)

-- The maps with one more target hold it and what they held.
Fresh-next :
    (ids : List ℤ) (servers : List (Text × ℤ)) (t u : Target)
    → (Fresh (t.id ∷ ids) (note t servers) u) ↔ (Fresh ids servers u × Apart t u)
unfolding find_server
Fresh-next ids servers t u = ground (
  arith,
  int_eq_iff u.id t.id,
  text_eq_iff (server t) (server u),
  trim_space_empty t.server_install_id,
  trim_space_empty u.server_install_id,
)

All-Fresh-next :
    (ids : List ℤ) (servers : List (Text × ℤ)) (t : Target) (us : List Target)
    → (All (Fresh (t.id ∷ ids) (note t servers)) us)
      ↔ (All (Fresh ids servers) us × All (Apart t) us)
All-Fresh-next ids servers t [] = (λ h. (tt, tt), λ h. tt)
All-Fresh-next ids servers t (u ∷ us) = (
  λ h.
      let (now, later) = h in
      let (f, a) = (Fresh-next ids servers t u).0 now in
      let (fs, as') = (All-Fresh-next ids servers t us).0 later in ((f, fs), (a, as')),
  λ h.
      let (fs, as') = h in
      (
        (Fresh-next ids servers t u).1 (fs.0, as'.0),
        (All-Fresh-next ids servers t us).1 (fs.1, as'.1),
      ),
)

Fresh-start : (ts : List Target) → All (Fresh [] []) ts
unfolding find_server
Fresh-start [] = tt
Fresh-start (t ∷ ts) = ((refl, inr refl), Fresh-start ts)

module _ (parse_url : Text → Option Url) where
  validate_targets_sound :
      (ids : List ℤ) (servers : List (Text × ℤ)) (ts : List Target)
      → validate_targets parse_url ids servers ts ≡ ok tt
      → All (IsProper parse_url) ts × All (Fresh ids servers) ts × AllApart ts
  unfolding validate_targets
  validate_targets_sound ids servers [] h = (tt, tt, tt)
  validate_targets_sound ids servers (t ∷ ts) h =
      let (servers', e, rest) = >>=-eq-ok (validate_target parse_url ids servers t) _ h in
      let (p, f, n) = validate_target_sound parse_url ids servers servers' t e in
      let (ps, fs, as') = validate_targets_sound (t.id ∷ ids) servers' ts rest in
      let (old, a) =
        (All-Fresh-next ids servers t ts).0 (subst (λ m. All (Fresh (t.id ∷ ids) m) ts) n fs) in
      ((p, ps), (f, old), (a, as'))

  validate_targets_complete :
      (ids : List ℤ) (servers : List (Text × ℤ)) (ts : List Target)
      → All (IsProper parse_url) ts
      → All (Fresh ids servers) ts
      → AllApart ts
      → validate_targets parse_url ids servers ts ≡ ok tt
  unfolding validate_targets
  validate_targets_complete ids servers [] p f a = refl
  validate_targets_complete ids servers (t ∷ ts) p f a =
      rw (validate_target_complete parse_url ids servers t p.0 f.0) (
        validate_targets_complete (t.id ∷ ids) (note t servers) ts p.1
          ((All-Fresh-next ids servers t ts).1 (f.1, a.0)) a.1)

  -- Validate accepts a config exactly when it is valid: the current version, every target with a
  -- positive id, an http or https URL with a host, a key that is not blank and an install id that
  -- is absent or not blank, and no two targets with one id or one install id after trimming.
  pub validate_iff : (cfg : Config) → (validate parse_url cfg ≡ ok tt) ↔ IsValid parse_url cfg
  unfolding validate
  validate_iff cfg = (
    λ h.
        let v : cfg.version ≡ config_version =
          ground (arith, int_eq_iff cfg.version config_version) in
        let r : validate_targets parse_url [] [] cfg.targets ≡ ok tt = ground (arith) in
        let (ps, _, as') = validate_targets_sound [] [] cfg.targets r in
        record { current = v; proper = ps; apart = as' },
    λ v.
        rw ((int_eq_iff cfg.version config_version).1 v.current)
          (validate_targets_complete [] [] cfg.targets v.proper (Fresh-start cfg.targets) v.apart),
  )
