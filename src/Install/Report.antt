-- ===== src/Install/Report.antt =====
-- saveReportInstall of internal/app/run.go and the searches that it makes. The server identity
-- that it fetches, the terminal and the failures of the file system are arguments; what only
-- writes log lines is left out.
pub mod Writes
pub mod Again
use ithiltir_node.Base.{
  ℕ, Bool, ◌&&◌, Option, none, some, List, [], ◌∷◌, ◌++◌, Text, text_eq, trim_space, ℤ, pos, int_eq,
  Result, ok, err, if◌then◌else◌, is_empty, first,
}
use ithiltir_node.ReportCfg.{Url, Target, Config, ConfigError, add, replace}
use ithiltir_node.Install.Files.{Stored, SaveStep, save}
use ithiltir_node.Install.Prompt.{Input, Choice, keep_existing, replace_existing, choose_duplicate}

pub record Identity : Type 0 where
  pub install_id : Text
  pub created : Bool

pub data Output : Type 0 where
  notice : Text → Output
  printed : Target → Output
  usage : Output

-- What one run of the command meets outside it.
pub record Env : Type 0 where
  pub identity : Option Identity
  pub terminal : Option Input
  pub fails : SaveStep → Bool

pub record Outcome : Type 0 where
  pub code : ℕ
  pub file : Stored
  pub output : List Output

unfoldable pub duplicate_target : Config → Text → Option Target
duplicate_target cfg install_id =
    let s = trim_space install_id in
    if is_empty s then none else first (λ t. text_eq (trim_space t.server_install_id) s) cfg.targets

pub same_report_target : Target → Target → Bool
same_report_target a b =
    text_eq (trim_space a.url) (trim_space b.url)
    && text_eq (trim_space a.key) (trim_space b.key)
    && text_eq (trim_space a.server_install_id) (trim_space b.server_install_id)

target_by_url_key : Config → Text → Text → Option Target
target_by_url_key cfg endpoint key =
    first
      (λ t.
        text_eq (trim_space t.url) (trim_space endpoint)
        && text_eq (trim_space t.key) (trim_space key))
      cfg.targets

abbrev no_target : Target
no_target = record { id = pos 0; url = []; key = []; server_install_id = [] }

abbrev or_no_target : Option Target → Target
or_no_target none = no_target
or_no_target (some t) = t

-- targetByID: the first target with the id, or the zero target.
pub target_by_id : Config → ℤ → Target
target_by_id cfg id = or_no_target (first (λ t. int_eq t.id id) cfg.targets)

unfoldable pub failed : Stored → List Output → Outcome
failed file output = record { code = 1; file = file; output = output }

unfoldable pub done : Stored → List Output → Outcome
done file output = record { code = 0; file = file; output = output }

unfoldable pub identity_notice : Identity → List Output
identity_notice i = if i.created then notice i.install_id ∷ [] else []

module _ (parse_url : Text → Option Url) where
  -- Save the next config, then print a target.
  unfoldable pub commit : Env → Stored → List Output → Config → Target → Outcome
  unfolding failed done
  commit env file out next t =
      let (file', saved) = save parse_url env.fails file next in
      if saved then done file' (out ++ printed t ∷ []) else failed file' out

  pub commit_edit : Env → Stored → List Output → Result ConfigError Config → ℤ → Outcome
  unfolding commit target_by_id
  commit_edit env file out (err _) id = failed file out
  commit_edit env file out (ok next) id = commit env file out next (target_by_id next id)

  unfoldable pub commit_add :
      Env → Stored → List Output → Result ConfigError (Config × Target) → Outcome
  unfolding commit
  commit_add env file out (err _) = failed file out
  commit_add env file out (ok (next, t)) = commit env file out next t

  pub settle_duplicate :
      Env → Stored → List Output → Config → Target → Target → Option Choice → Outcome
  unfolding commit_edit
  settle_duplicate env file out cfg existing incoming none = failed file out
  settle_duplicate env file out cfg existing incoming (some keep_existing) =
      done file (out ++ printed existing ∷ [])
  settle_duplicate env file out cfg existing incoming (some replace_existing) =
      commit_edit env file out
        (replace parse_url cfg existing.id incoming.url incoming.key incoming.server_install_id)
        existing.id

  -- saveReportInstall once the server's identity is known.
  unfoldable pub install_identified :
      Env → Stored → List Output → Config → Target → Option Target → Option Target → Outcome
  unfolding settle_duplicate same_report_target commit_add
  install_identified env file out cfg incoming url_target (some existing) =
      if same_report_target existing incoming
      then done file (out ++ printed existing ∷ [])
      else settle_duplicate env file out cfg existing incoming (choose_duplicate env.terminal)
  install_identified env file out cfg incoming (some t) none =
      commit_edit env file out
        (replace parse_url cfg t.id incoming.url incoming.key incoming.server_install_id) t.id
  install_identified env file out cfg incoming none none =
      commit_add env file out
        (add parse_url cfg incoming.url incoming.key incoming.server_install_id)

  pub install_fetched :
      Env → Stored → Config → Text → Text → Option Target → Option Identity → Outcome
  unfolding install_identified identity_notice duplicate_target
  install_fetched env file cfg endpoint key url_target none = failed file []
  install_fetched env file cfg endpoint key url_target (some i) =
      install_identified env file (identity_notice i) cfg
        (record { id = pos 0; url = endpoint; key = key; server_install_id = i.install_id })
        url_target (duplicate_target cfg i.install_id)

  pub install_known : Env → Stored → Config → Text → Text → Option Target → Outcome
  unfolding install_fetched done
  install_known env file cfg endpoint key (some t) =
      if is_empty (trim_space t.server_install_id)
      then install_fetched env file cfg endpoint key (some t) env.identity
      else done file (printed t ∷ [])
  install_known env file cfg endpoint key none =
      install_fetched env file cfg endpoint key none env.identity

  unfoldable pub save_report_install : Env → Stored → Config → Text → Text → Outcome
  unfolding install_known target_by_url_key
  save_report_install env file cfg endpoint key =
      let e = trim_space endpoint in
      let k = trim_space key in install_known env file cfg e k (target_by_url_key cfg e k)
