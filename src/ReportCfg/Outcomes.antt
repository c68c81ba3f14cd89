-- ===== src/ReportCfg/Outcomes.antt =====
-- What the result of an edit is, whatever the edit was given.
use ithiltir_node.Base.{
  ◌≡◌, ◌⊎◌, inl, inr, refl, Bool, true, false, Option, none, some, List, [], ◌∷◌, ◌++◌, Text, ℤ,
  int_eq, All, arith, ok, >>=-eq-ok, first, Bool-cases, Option-cases,
}
use ithiltir_node.ReportCfg.{
  Url, Target, Config, current_version, validated, add, remove, change_first, edit, update_key,
  replace, new_key, new_target,
}
use ithiltir_node.ReportCfg.Shape.{IsValid}
use ithiltir_node.ReportCfg.Ids.{has_id, without}
use ithiltir_node.ReportCfg.Edits.{validated-IsValid}
use ithiltir_node.ReportCfg.Admission.{added}

module _ (parse_url : Text → Option Url) where
  edit_outcome :
      (f : Target → Target) (cfg : Config) (id : ℤ) (r : Option (List Target)) (next : Config)
      → change_first f id cfg.targets ≡ r
      → edit parse_url f cfg id ≡ ok next
      → (ts : List Target) × (r ≡ some ts)
        × (next ≡ record cfg { targets = ts })
        × IsValid parse_url next
  unfolding edit
  edit_outcome f cfg id none next e h = cc (rw (e, edit) at h)
  edit_outcome f cfg id (some ts) next e h =
      let (same, v) =
        validated-IsValid parse_url (record cfg { targets = ts }) next (rw (e, edit) at h) in
      (ts, refl, same, rw same v)

  pub replace_outcome :
      (cfg next : Config) (id : ℤ) (endpoint key server_install_id : Text)
      → replace parse_url cfg id endpoint key server_install_id ≡ ok next
      → (ts : List Target) × (change_first
            (new_target endpoint key server_install_id)
            id
            cfg.targets
          ≡ some ts)
        × (next ≡ record cfg { targets = ts })
        × IsValid parse_url next
  unfolding replace
  replace_outcome cfg next id endpoint key server_install_id h =
      edit_outcome (new_target endpoint key server_install_id) cfg id _ next refl h

  pub add_outcome :
      (cfg next : Config) (t : Target) (endpoint key server_install_id : Text)
      → add parse_url cfg endpoint key server_install_id ≡ ok (next, t)
      → (t ≡ added cfg endpoint key server_install_id)
        × (next.targets ≡ cfg.targets ++ t ∷ [])
        × IsValid parse_url next
  unfolding add
  add_outcome cfg next t endpoint key server_install_id h =
      let t' = added cfg endpoint key server_install_id in
      let grown : Config = record {
        version = current_version cfg.version;
        targets = cfg.targets ++ t' ∷ [];
      } in
      let (n, run, pair) = >>=-eq-ok (validated parse_url grown) (λ next. ok (next, t')) h in
      let (same, v) = validated-IsValid parse_url grown n run in
      let n_eq : n ≡ next = ground arith in
      let t_eq : t ≡ t' = ground arith in
      let next_eq : next ≡ grown = ground arith in (t_eq, ground arith, rw next_eq v)

  -- Whatever a caller gives to Add, Remove, Replace or UpdateKey, the config that comes back
  -- without an error is valid.
  pub edits-IsValid :
      (cfg next : Config) (id : ℤ) (t : Target) (endpoint key server_install_id : Text)
      → (add parse_url cfg endpoint key server_install_id ≡ ok (next, t))
        ⊎ ((remove parse_url cfg id ≡ ok next)
            ⊎ ((replace parse_url cfg id endpoint key server_install_id ≡ ok next)
                ⊎ (update_key parse_url cfg id key ≡ ok next)))
      → IsValid parse_url next
  unfolding update_key remove
  edits-IsValid cfg next id t endpoint key server_install_id (inl h) =
      (add_outcome cfg next t endpoint key server_install_id h).2
  edits-IsValid cfg next id t endpoint key server_install_id (inr (inl h)) =
      elim (Bool-cases (has_id id cfg.targets)) [
        | inl e ↦
            let (same, v) =
              validated-IsValid parse_url (record cfg { targets = without id cfg.targets }) next
                (rw e at h) in
            rw same v
        | inr e ↦ cc (rw e at h)
      ]
  edits-IsValid cfg next id t endpoint key server_install_id (inr (inr (inl h))) =
      (replace_outcome cfg next id endpoint key server_install_id h).3
  edits-IsValid cfg next id t endpoint key server_install_id (inr (inr (inr h))) =
      (edit_outcome (new_key key) cfg id _ next refl h).3

-- A search that the changed targets pass, and of the others only those with the id, finds the
-- changed one.
pub first-change_first :
    (p : Target → Bool) (f : Target → Target) (id : ℤ) (ts ts' : List Target)
    → ((t : Target) → p (f t) ≡ true)
    → All (λ t. (p t ≡ false) ⊎ (int_eq t.id id ≡ true)) ts
    → change_first f id ts ≡ some ts'
    → (t : Target) × (first p ts' ≡ some (f t))
unfolding change_first
first-change_first p f id [] ts' hit only h = cc
first-change_first p f id (t ∷ ts) ts' hit only h = elim (Bool-cases (int_eq t.id id)) [
  | inl e ↦ (t, ground (arith, hit t))
  | inr e ↦ elim (Option-cases (change_first f id ts)) [
    | inl miss ↦ absurd (ground arith)
    | inr (us, found) ↦
        let (u, at_u) = first-change_first p f id ts us hit only.1 found in (u, ground arith)
  ]
]
