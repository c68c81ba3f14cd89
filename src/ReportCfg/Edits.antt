-- ===== src/ReportCfg/Edits.antt =====
-- The edits of a valid config: Remove, UpdateKey and Replace.
use ithiltir_node.Base.{
  ◌+◌, ◌≡◌, ◌≢◌, inl, inr, refl, Option, [], map, true, false, Text, trim_space, trim_space_idem, ℤ,
  int_eq, All, arith, ok, err, >>=-eq-ok, length, Bool-cases,
}
use ithiltir_node.ReportCfg.{
  Url, Target, Config, not_found, validate, validated, remove, edit, new_key, new_target,
  update_key, replace,
}
use ithiltir_node.ReportCfg.Shape.{IsEndpoint, Apart, IsProper, IsValid}
use ithiltir_node.ReportCfg.Validity.{validate_iff}
use ithiltir_node.ReportCfg.Ids.{
  has_id, without, at_id, Vacant, All-without, AllApart-without, has_id-without, length-without,
  change_first-map, change_first_missing, Vacant-Apart, always, AllApart-map, All-map,
}

module _ (parse_url : Text → Option Url) where
  pub validated_ok : (cfg : Config) → IsValid parse_url cfg → validated parse_url cfg ≡ ok cfg
  unfolding validated
  validated_ok cfg v = rw ((validate_iff parse_url cfg).1 v)

  -- Removing an id that a target of a valid config has: the call succeeds, the new config is
  -- valid, holds the targets with other ids in their order, and is one target shorter.
  remove-IsValid :
      (cfg : Config) (id : ℤ)
      → IsValid parse_url cfg
      → has_id id cfg.targets ≡ true
      → (next : Config) × (remove parse_url cfg id ≡ ok next)
        × IsValid parse_url next
        × (next.targets ≡ without id cfg.targets)
        × (has_id id next.targets ≡ false)
        × (length next.targets + 1 ≡ length cfg.targets)
  unfolding remove
  remove-IsValid cfg id v h =
      let next : Config = record cfg { targets = without id cfg.targets } in
      let valid : IsValid parse_url next = record {
        current = v.current;
        proper = All-without (IsProper parse_url) id cfg.targets v.proper;
        apart = AllApart-without id cfg.targets v.apart;
      } in
      (
        next,
        rw h (validated_ok next valid),
        valid,
        refl,
        has_id-without id cfg.targets,
        length-without id cfg.targets v.apart h,
      )

  -- A valid config stays valid, and the edit succeeds, when the changed target keeps its id, is
  -- proper, and stays apart from the others.
  edit-IsValid :
      (f : Target → Target) (Q : Target → Type 0) (cfg : Config) (id : ℤ)
      → ((t : Target) → IsProper parse_url t → IsProper parse_url (at_id id f t))
      → ((t u : Target) → Q t → Q u → Apart t u → Apart (at_id id f t) (at_id id f u))
      → All Q cfg.targets
      → IsValid parse_url cfg
      → has_id id cfg.targets ≡ true
      → let next = record cfg { targets = map (at_id id f) cfg.targets } in
        (edit parse_url f cfg id ≡ ok next) × IsValid parse_url next
  unfolding edit
  edit-IsValid f Q cfg id proper apart qs v h =
      let next : Config = record cfg { targets = map (at_id id f) cfg.targets } in
      let valid : IsValid parse_url next = record {
        current = v.current;
        proper = All-map (IsProper parse_url) (at_id id f) proper cfg.targets v.proper;
        apart = AllApart-map Q (at_id id f) apart cfg.targets qs v.apart;
      } in
      (rw (change_first-map id f cfg.targets v.apart h, edit) (validated_ok next valid), valid)

  -- Rotating the key of an id that a target of a valid config has, to a key that is not blank:
  -- the call succeeds, the new config is valid, and differs in that target's key alone, which is
  -- the new one, trimmed.
  update_key-IsValid :
      (cfg : Config) (id : ℤ) (key : Text)
      → IsValid parse_url cfg
      → has_id id cfg.targets ≡ true
      → trim_space key ≢ []
      → let next = record cfg { targets = map (at_id id (new_key key)) cfg.targets } in
        (update_key parse_url cfg id key ≡ ok next) × IsValid parse_url next
  unfolding update_key
  update_key-IsValid cfg id key v h k =
      edit-IsValid (new_key key) (λ _. Unit {0}) cfg id (λ t p. ground (arith, trim_space_idem key))
        (λ t u _ _ a. ground arith) (always cfg.targets) v h

  -- Replacing a target of a valid config by a URL that Validate takes, a key that is not blank
  -- and an install id that no other target has: the call succeeds, the new config is valid, and
  -- differs in that target alone, which keeps its id and has the new values, trimmed.
  replace-IsValid :
      (cfg : Config) (id : ℤ) (endpoint key server_install_id : Text)
      → IsValid parse_url cfg
      → has_id id cfg.targets ≡ true
      → trim_space endpoint ≢ []
      → IsEndpoint (parse_url (trim_space endpoint))
      → trim_space key ≢ []
      → All (Vacant id (trim_space server_install_id)) cfg.targets
      → let next = record cfg {
        targets = map (at_id id (new_target endpoint key server_install_id)) cfg.targets;
      } in
        (replace parse_url cfg id endpoint key server_install_id ≡ ok next) × IsValid parse_url next
  unfolding replace
  replace-IsValid cfg id endpoint key server_install_id v h e p k free =
      let s = trim_space server_install_id in
      edit-IsValid (new_target endpoint key server_install_id) (Vacant id s) cfg id
        (λ t q. elim (Bool-cases (int_eq t.id id)) [
          | inl same ↦ rw same (record {
            positive = q.positive;
            addressed = rw (trim_space_idem endpoint) e;
            reachable = rw (trim_space_idem endpoint) p;
            keyed = rw (trim_space_idem key) k;
            named = ground (arith, trim_space_idem server_install_id);
          })
          | inr other ↦ rw other q
        ])
        (λ t u a b.
          Vacant-Apart id s (new_target endpoint key server_install_id) t u refl refl
            (trim_space_idem server_install_id) (trim_space_idem server_install_id) a b)
        free v h

  -- An id that no target has is refused by the three edits, whatever else is given.
  edits_missing :
      (cfg : Config) (id : ℤ) (endpoint key server_install_id : Text)
      → has_id id cfg.targets ≡ false
      → (remove parse_url cfg id ≡ err not_found)
        × (update_key parse_url cfg id key ≡ err not_found)
        × (replace parse_url cfg id endpoint key server_install_id ≡ err not_found)
  unfolding remove update_key replace
  edits_missing cfg id endpoint key server_install_id h = (
    rw h,
    rw (change_first_missing id (new_key key) cfg.targets h, edit),
    rw (change_first_missing id (new_target endpoint key server_install_id) cfg.targets h, edit),
  )

  pub validated-IsValid :
      (cfg next : Config) → validated parse_url cfg ≡ ok next → (next ≡ cfg) × IsValid parse_url cfg
  unfolding validated
  validated-IsValid cfg next h =
      let (u, ok_cfg, e) = >>=-eq-ok (validate parse_url cfg) (λ _. ok cfg) h in
      (ground arith, (validate_iff parse_url cfg).0 ok_cfg)
