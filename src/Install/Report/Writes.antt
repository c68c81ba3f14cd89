-- ===== src/Install/Report/Writes.antt =====
-- What saveReportInstall can write to the report file.
use ithiltir_node.Base.{
  ◌≡◌, ◌⊎◌, inl, inr, refl, Option, none, some, List, Text, trim_space, ℤ, pos, Result, ok, err,
  is_empty, arith, Bool-cases,
}
use ithiltir_node.ReportCfg.{Url, Target, Config, ConfigError, add, replace}
use ithiltir_node.Install.Files.{Stored, present}
use ithiltir_node.Install.Files.Atomic.{save_total}
use ithiltir_node.Install.Prompt.{Choice, keep_existing, replace_existing}
use ithiltir_node.Install.Report.{
  Identity, Env, Outcome, Output, duplicate_target, same_report_target, commit, commit_edit,
  commit_add, settle_duplicate, install_identified, install_fetched, install_known,
  save_report_install, identity_notice,
}

-- The config that goes to Save: the target appended, or put in the place of one.
pub data Edit (parse_url : Text → Option Url) (cfg : Config) (t : Target) (next : Config)
    : Type 0 where
  appended :
      (new : Target)
      → add parse_url cfg t.url t.key t.server_install_id ≡ ok (next, new)
      → duplicate_target cfg t.server_install_id ≡ none
      → Edit parse_url cfg t next
  replaced :
      (old : Target)
      → replace parse_url cfg old.id t.url t.key t.server_install_id ≡ ok next
      → (duplicate_target cfg t.server_install_id ≡ none)
        ⊎ (duplicate_target cfg t.server_install_id ≡ some old)
      → Edit parse_url cfg t next

-- The target that an install asks for, once the server has said who it is.
abbrev pub incoming : Text → Text → Identity → Target
incoming endpoint key i = record {
  id = pos 0;
  url = trim_space endpoint;
  key = trim_space key;
  server_install_id = i.install_id;
}

module _ (parse_url : Text → Option Url) where
  -- The file is as it was, or holds an edit of the config.
  abbrev pub Writes : Stored → Config → Target → Outcome → Type 0
  Writes file cfg t o =
      (o.file ≡ file) ⊎ ((next : Config) × (o.file ≡ present next) × Edit parse_url cfg t next)

  commit_file :
      (env : Env) (file : Stored) (out : List Output) (next : Config) (t : Target)
      → ((commit parse_url env file out next t).file ≡ file)
        ⊎ ((commit parse_url env file out next t).file ≡ present next)
  unfolding commit
  commit_file env file out next t = ground (arith, save_total parse_url env.fails file next)

  commit_edit_file :
      (env : Env) (file : Stored) (out : List Output) (r : Result ConfigError Config) (id : ℤ)
      → ((commit_edit parse_url env file out r id).file ≡ file)
        ⊎ ((next : Config) × ((commit_edit parse_url env file out r id).file ≡ present next)
            × (r ≡ ok next))
  unfolding commit_edit
  commit_edit_file env file out (err e) id = inl refl
  commit_edit_file env file out (ok next) id = elim (commit_file env file out next _) [
    | inl e ↦ inl e
    | inr e ↦ inr (next, e, refl)
  ]

  replaced_Writes :
      (env : Env) (file : Stored) (out : List Output) (cfg : Config) (t old : Target)
      → (duplicate_target cfg t.server_install_id ≡ none)
        ⊎ (duplicate_target cfg t.server_install_id ≡ some old)
      → Writes file cfg t (
          commit_edit parse_url env file out
            (replace parse_url cfg old.id t.url t.key t.server_install_id)
            old.id)
  replaced_Writes env file out cfg t old d =
      elim (commit_edit_file env file out
        (replace parse_url cfg old.id t.url t.key t.server_install_id) old.id) [
          | inl e ↦ inl e
          | inr (next, e, r) ↦ inr (next, e, replaced old r d)
        ]

  appended_Writes :
      (env : Env) (file : Stored) (out : List Output) (cfg : Config) (t : Target)
      (r : Result ConfigError (Config × Target))
      → add parse_url cfg t.url t.key t.server_install_id ≡ r
      → duplicate_target cfg t.server_install_id ≡ none
      → Writes file cfg t (commit_add parse_url env file out r)
  unfolding commit_add
  appended_Writes env file out cfg t (err e) a d = inl refl
  appended_Writes env file out cfg t (ok (next, new)) a d =
      elim (commit_file env file out next new) [
        | inl e ↦ inl e
        | inr e ↦ inr (next, e, appended new a d)
      ]

  settle_Writes :
      (env : Env) (file : Stored) (out : List Output) (cfg : Config) (t old : Target)
      (c : Option Choice)
      → duplicate_target cfg t.server_install_id ≡ some old
      → Writes file cfg t (settle_duplicate parse_url env file out cfg old t c)
  unfolding settle_duplicate
  settle_Writes env file out cfg t old none d = inl refl
  settle_Writes env file out cfg t old (some keep_existing) d = inl refl
  settle_Writes env file out cfg t old (some replace_existing) d =
      replaced_Writes env file out cfg t old (inr d)

  identified_Writes :
      (env : Env) (file : Stored) (out : List Output) (cfg : Config) (t : Target)
      (u d : Option Target)
      → duplicate_target cfg t.server_install_id ≡ d
      → Writes file cfg t (install_identified parse_url env file out cfg t u d)
  unfolding install_identified
  identified_Writes env file out cfg t u (some old) e =
      elim (Bool-cases (same_report_target old t)) [
        | inl same ↦ rw same (inl refl)
        | inr other ↦ rw other (settle_Writes env file out cfg t old _ e)
      ]
  identified_Writes env file out cfg t (some old) none e =
      replaced_Writes env file out cfg t old (inl e)
  identified_Writes env file out cfg t none none e = appended_Writes env file out cfg t _ refl e

  abbrev InstallWrites : Env → Stored → Config → Text → Text → Outcome → Type 0
  InstallWrites env file cfg endpoint key o =
      (o.file ≡ file)
      ⊎ ((i : Identity) × (env.identity ≡ some i)
          × (next : Config) × (o.file ≡ present next)
          × Edit parse_url cfg (incoming endpoint key i) next)

  fetched_Writes :
      (env : Env) (file : Stored) (cfg : Config) (endpoint key : Text) (u : Option Target)
      (m : Option Identity)
      → env.identity ≡ m
      → InstallWrites env file cfg endpoint key
          (install_fetched parse_url env file cfg (trim_space endpoint) (trim_space key) u m)
  unfolding install_fetched
  fetched_Writes env file cfg endpoint key u none e = inl refl
  fetched_Writes env file cfg endpoint key u (some i) e =
      elim (identified_Writes env file (identity_notice i) cfg (incoming endpoint key i) u _ refl) [
        | inl same ↦ inl same
        | inr (next, file', edit) ↦ inr (i, e, next, file', edit)
      ]

  known_Writes :
      (env : Env) (file : Stored) (cfg : Config) (endpoint key : Text) (u : Option Target)
      → InstallWrites env file cfg endpoint key
          (install_known parse_url env file cfg (trim_space endpoint) (trim_space key) u)
  unfolding install_known
  known_Writes env file cfg endpoint key none =
      fetched_Writes env file cfg endpoint key none env.identity refl
  known_Writes env file cfg endpoint key (some t) =
      elim (Bool-cases (is_empty (trim_space t.server_install_id))) [
        | inl blank ↦ rw blank (fetched_Writes env file cfg endpoint key (some t) env.identity refl)
        | inr named ↦ rw named (inl refl)
      ]

  -- One install leaves the report file as it was, or writes an edit of the loaded config whose
  -- new target is the one asked for, under the install id that the server gave.
  pub install_Writes :
      (env : Env) (file : Stored) (cfg : Config) (endpoint key : Text)
      → let o = save_report_install parse_url env file cfg endpoint key in
        (o.file ≡ file)
        ⊎ ((i : Identity) × (env.identity ≡ some i)
            × (next : Config) × (o.file ≡ present next)
            × Edit parse_url cfg (incoming endpoint key i) next)
  unfolding save_report_install
  install_Writes env file cfg endpoint key = known_Writes env file cfg endpoint key _
