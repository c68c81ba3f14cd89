-- ===== src/ReportCfg/Examples.antt =====
-- The theorems on internal/reportcfg/config.go at a config of two targets.
use ithiltir_node.Base.{
  ◌≡◌, text_eq, int_eq, inl, inr, ◌↔◌, refl, false, Option, some, [], ◌∷◌, ◌++◌, Text, codes,
  trim_space, pos, ok, arith,
}
use ithiltir_node.ReportCfg.{
  Url, Target, Config, find_server, track_server, validate_target, validate, add, update_key,
}
use ithiltir_node.ReportCfg.Shape.{IsValid}
use ithiltir_node.ReportCfg.Ids.{has_id}
use ithiltir_node.ReportCfg.Validity.{validate_iff}
use ithiltir_node.ReportCfg.Admission.{added, add-IsValid}
use ithiltir_node.ReportCfg.Outcomes.{edits-IsValid}

-- A parser that reads every URL as http://h.
abbrev parse_h : Text → Option Url
parse_h s = some (record { scheme = codes "http"; host = codes "h" })

abbrev target_one : Target
target_one = record {
  id = pos 1;
  url = codes "http://h";
  key = codes "k";
  server_install_id = codes "a";
}

abbrev target_two : Target
target_two = record { id = pos 2; url = codes "http://h"; key = codes "k"; server_install_id = [] }

abbrev two_targets : Config
two_targets = record { version = pos 1; targets = target_one ∷ target_two ∷ [] }

two_targets_accepted : validate parse_h two_targets ≡ ok tt
unfolding validate validate_target track_server find_server trim_space text_eq int_eq
two_targets_accepted = refl

two_targets-IsValid : IsValid parse_h two_targets
two_targets-IsValid = (validate_iff parse_h two_targets).0 two_targets_accepted

validate_iff_example : (validate parse_h two_targets ≡ ok tt) ↔ IsValid parse_h two_targets
validate_iff_example = validate_iff parse_h two_targets

add-IsValid_example :
    let t = added two_targets (codes "http://h/m") (codes "n") (codes "b") in
    let next = record two_targets { targets = two_targets.targets ++ t ∷ [] } in
    (add parse_h two_targets (codes "http://h/m") (codes "n") (codes "b") ≡ ok (next, t))
    × IsValid parse_h next
    × (has_id t.id two_targets.targets ≡ false)
unfolding trim_space text_eq int_eq
add-IsValid_example =
    add-IsValid parse_h two_targets (codes "http://h/m") (codes "n") (codes "b") two_targets-IsValid
      (omega arith, (omega arith, tt)) (λ h. cc h) (inl refl, λ h. cc h) (λ h. cc h)
      (inr (ground arith), (inr (λ h. cc h), tt))

edits-IsValid_example :
    IsValid parse_h
      (record two_targets { targets = target_one ∷ record target_two { key = codes "n" } ∷ [] })
unfolding update_key validate validate_target track_server find_server trim_space text_eq int_eq
edits-IsValid_example =
    edits-IsValid parse_h two_targets _ (pos 2) target_one [] (codes "n") [] (inr (inr (inr refl)))
