-- ===== src/Install/Files.antt =====
-- Load and Save of internal/reportcfg/config.go over the report file.
pub mod Atomic
use ithiltir_node.Base.{
  Bool, true, false, Option, none, some, List, [], ◌∷◌, Text, Result, ok, err, if◌then◌else◌,
}
use ithiltir_node.ReportCfg.{Url, Config, ConfigError, empty, validate}

-- The report file: absent, not readable as a config, or a config that is not yet validated.
pub data Stored : Type 0 where
  missing unreadable : Stored
  present : Config → Stored

-- The steps of Save that can fail, in their order; the last one replaces the file.
pub data SaveStep : Type 0 where
  mkdir create_temp chmod encode close_encoder sync close chown rename : SaveStep

abbrev pub save_steps : List SaveStep
save_steps =
    mkdir ∷ create_temp ∷ chmod ∷ encode ∷ close_encoder ∷ sync ∷ close ∷ chown ∷ rename ∷ []

loaded : Config → Result ConfigError (Unit {0}) → Option Config
loaded cfg (ok _) = some cfg
loaded cfg (err _) = none

-- The file after the steps of Save, and whether all were made.
save_from : (SaveStep → Bool) → List SaveStep → Stored → Config → Stored × Bool
save_from fails [] file next = (present next, true)
save_from fails (step ∷ steps) file next =
    let rest = save_from fails steps file next in if fails step then (file, false) else rest

save_valid : (SaveStep → Bool) → Result ConfigError (Unit {0}) → Stored → Config → Stored × Bool
unfolding save_from
save_valid fails (ok _) file next = save_from fails save_steps file next
save_valid fails (err _) file next = (file, false)

module _ (parse_url : Text → Option Url) where
  -- Load; `none` is its error.
  unfoldable pub load : Stored → Option Config
  unfolding loaded
  load missing = some empty
  load unreadable = none
  load (present cfg) = loaded cfg (validate parse_url cfg)

  unfoldable pub save : (SaveStep → Bool) → Stored → Config → Stored × Bool
  unfolding save_valid
  save fails file next = save_valid fails (validate parse_url next) file next
