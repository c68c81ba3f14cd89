-- ===== src/Install/Files/Atomic.antt =====
-- Save replaces the whole report file or leaves it alone, and Load reads back what it wrote.
use ithiltir_node.Base.{
  ◌≡◌, ◌⊎◌, inl, inr, refl, Bool, true, false, Option, some, List, [], ◌∷◌, Text, Result, ok, err,
  if◌then◌else◌, arith, exists_in, ◌≢◌,
}
use ithiltir_node.ReportCfg.{Url, Config, ConfigError, validate}
use ithiltir_node.ReportCfg.Shape.{IsValid}
use ithiltir_node.ReportCfg.Validity.{validate_iff}
use ithiltir_node.Install.Files.{
  Stored, present, SaveStep, load, loaded, save, save_from, save_valid, save_steps,
}

-- The steps that fail are looked for in order; one is enough to leave the file alone.
save_from_lem :
    (fails : SaveStep → Bool) (steps : List SaveStep) (file : Stored) (next : Config)
    → save_from fails steps file next
      ≡ (if exists_in fails steps then (file, false) else (present next, true))
unfolding save_from
save_from_lem fails [] file next = refl
save_from_lem fails (s ∷ steps) file next = ground (arith, save_from_lem fails steps file next)

-- Which of the two a run of Save is, by the result of Validate.
save_valid_lem :
    (fails : SaveStep → Bool) (r : Result ConfigError (Unit {0})) (file : Stored) (next : Config)
    → ((save_valid fails r file next ≡ (present next, true))
        × (r ≡ ok tt)
        × (exists_in fails save_steps ≡ false))
      ⊎ ((save_valid fails r file next ≡ (file, false))
          × ((r ≢ ok tt) ⊎ (exists_in fails save_steps ≡ true)))
unfolding save_valid
save_valid_lem fails (ok u) file next = ground (arith, save_from_lem fails save_steps file next)
save_valid_lem fails (err e) file next = ground arith

module _ (parse_url : Text → Option Url) where
  -- Save of a config that Validate takes, with no failing step, succeeds and the file holds the
  -- config. In every other case Save fails and the file is what it was.
  pub save_total :
      (fails : SaveStep → Bool) (file : Stored) (next : Config)
      → ((save parse_url fails file next ≡ (present next, true))
          × IsValid parse_url next
          × (exists_in fails save_steps ≡ false))
        ⊎ ((save parse_url fails file next ≡ (file, false))
            × ((validate parse_url next ≢ ok tt) ⊎ (exists_in fails save_steps ≡ true)))
  unfolding save
  save_total fails file next = elim (save_valid_lem fails (validate parse_url next) file next) [
    | inl (e, v, f) ↦ inl (e, (validate_iff parse_url next).0 v, f)
    | inr h ↦ inr h
  ]

  -- What Save wrote, Load returns.
  load-save :
      (fails : SaveStep → Bool) (file : Stored) (next : Config)
      → (save parse_url fails file next).1 ≡ true
      → load parse_url (save parse_url fails file next).0 ≡ some next
  unfolding load
  load-save fails file next h = elim (save_total fails file next) [
    | inl (e, v, f) ↦ rw e (rw ((validate_iff parse_url next).1 v, loaded))
    | inr (e, _) ↦ cc
  ]
