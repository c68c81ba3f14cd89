-- ===== src/Install/Examples.antt =====
-- The theorems on the report command at a first install.
use ithiltir_node.Base.{
  ℤ, ◌≡◌, ◌⊎◌, refl, sym, true, false, Option, none, some, [], ◌∷◌, Text, codes, text_eq,
  trim_space, pos, int_eq, wrap_int,
}
use ithiltir_node.ReportCfg.{
  Url, Config, add, current_version, next_id, find_server, track_server, validate_target, validate,
}
use ithiltir_node.ReportCfg.Shape.{IsValid}
use ithiltir_node.ReportCfg.Validity.{validate_iff}
use ithiltir_node.Install.Files.{missing, present, save}
use ithiltir_node.Install.Report.{Identity, Env, commit_add, save_report_install}
use ithiltir_node.Install.Command.{run_report}
use ithiltir_node.Install.Command.Valid.{run_report-Intact}
use ithiltir_node.Install.Report.Again.{install_again}

-- A parser that reads every URL as http://h.
abbrev parse_h : Text → Option Url
parse_h s = some (record { scheme = codes "http"; host = codes "h" })

abbrev identity_a : Identity
identity_a = record { install_id = codes "a"; created = false }

abbrev env_a : Env
env_a = record { identity = some identity_a; terminal = none; fails = λ s. false }

abbrev no_targets : Config
no_targets = record { version = pos 1; targets = [] }

abbrev one_target : Config
one_target = record {
  version = pos 1;
  targets =
      record { id = pos 1; url = codes "http://h"; key = codes "k"; server_install_id = codes "a" }
      ∷ [];
}

no_targets-IsValid : IsValid parse_h no_targets
unfolding validate int_eq
no_targets-IsValid = (validate_iff parse_h no_targets).0 refl

one_saved : save parse_h (λ s. false) missing one_target ≡ (present one_target, true)
unfolding save validate validate_target track_server find_server trim_space text_eq int_eq
one_saved = refl

first_install :
    (save_report_install parse_h env_a missing no_targets (codes "http://h") (codes "k")).file
    ≡ present one_target
unfolding save_report_install commit_add add current_version next_id validate validate_target
    track_server find_server save trim_space text_eq int_eq wrap_int
first_install = refl

install_again_example :
    let o =
      save_report_install parse_h env_a
        (present one_target)
        one_target
        (codes "http://h")
        (codes "k") in
    (o.code ≡ 0) × (o.file ≡ present one_target)
unfolding trim_space
install_again_example =
    install_again parse_h env_a env_a missing no_targets one_target (codes "http://h") (codes "k")
      identity_a no_targets-IsValid refl refl (λ h. cc h) (λ h. cc (sym first_install, h))
      first_install

abbrev atoi_one : Text → Option ℤ
atoi_one s = some (pos 1)

run_report-Intact_example :
    let o =
      run_report parse_h atoi_one env_a
        (present one_target)
        (codes "report" ∷ codes "update" ∷ codes "1" ∷ codes "n" ∷ []) in
    (o.file ≡ present one_target)
    ⊎ ((next : Config) × (o.file ≡ present next) × IsValid parse_h next)
run_report-Intact_example =
    run_report-Intact parse_h atoi_one env_a (present one_target)
      (codes "report" ∷ codes "update" ∷ codes "1" ∷ codes "n" ∷ [])
