-- ===== src/ReportCfg.antt =====
-- internal/reportcfg/config.go: the report targets of report.yaml, and the edits of that list.
-- `url.Parse` of the standard library is the parameter `parse_url`.
pub mod Shape
pub mod Validity
pub mod Ids
pub mod Edits
pub mod Admission
pub mod Outcomes
mod Examples
use ithiltir_node.Base.{
  ℕ, ◌+◌, Bool, ◌&&◌, not, Option, none, some, List, [], ◌∷◌, ◌++◌, Text, text_eq, codes,
  trim_space, ℤ, pos, pos_part, is_positive, int_eq, wrap_int, Result, ok, err, fail_if, ◌>>=◌,
  ◌>>◌, if◌then◌else◌, ltb, is_empty, keep, exists_in,
}

-- The parts of a parsed URL that are read here.
pub record Url : Type 0 where
  pub scheme : Text
  pub host : Text

pub record Target : Type 0 where
  pub id : ℤ
  pub url : Text
  pub key : Text
  pub server_install_id : Text

pub record Config : Type 0 where
  pub version : ℤ
  pub targets : List Target

abbrev pub config_version : ℤ
config_version = pos 1

pub data UrlError : Type 0 where
  empty_url unparsable bad_scheme no_host : UrlError

pub data ConfigError : Type 0 where
  bad_version bad_id not_found : ConfigError
  duplicate_id empty_key bad_install_id : ℤ → ConfigError
  bad_url : ℤ → UrlError → ConfigError
  duplicate_install_id : Text → ℤ → ℤ → ConfigError

abbrev pub empty : Config
empty = record { version = config_version; targets = [] }

-- NormalizeServerInstallID; `none` is its error.
normalize_server_install_id : Text → Option Text
normalize_server_install_id id = let id = trim_space id in if is_empty id then none else some id

-- The largest of `max_id`, which is never negative, and the ids.
pub max_id : ℕ → List Target → ℕ
max_id m [] = m
max_id m (t ∷ ts) = max_id (if ltb m (pos_part t.id) then pos_part t.id else m) ts

unfoldable pub next_id : List Target → ℤ
unfolding max_id
next_id targets = wrap_int (max_id 0 targets + 1)

-- The map `seenInstallIDs`.
unfoldable pub find_server : Text → List (Text × ℤ) → Option ℤ
find_server s [] = none
find_server s ((t, id) ∷ seen) = if text_eq t s then some id else find_server s seen

has_scheme : Text → Url → Bool
has_scheme s u = text_eq u.scheme s

pub check_url : Option Url → Result UrlError (Unit {0})
unfolding has_scheme
check_url none = err unparsable
check_url (some u) =
    if not (has_scheme (codes "http") u) && not (has_scheme (codes "https") u)
    then err bad_scheme
    else if is_empty u.host
    then err no_host
    else ok tt

wrap_url_error : ℤ → Result UrlError (Unit {0}) → Result ConfigError (Unit {0})
wrap_url_error id (ok _) = ok tt
wrap_url_error id (err e) = err (bad_url id e)

-- The install id of one target against those seen; the map with it, or the error.
admit_server : Target → Option Text → List (Text × ℤ) → Result ConfigError (List (Text × ℤ))
admit_server t none seen = err (bad_install_id t.id)
admit_server t (some s) seen = elim (find_server s seen) [
  | some existing ↦ err (duplicate_install_id s existing t.id)
  | none ↦ ok ((s, t.id) ∷ seen)
]

-- The part of the loop about the install id of a target.
unfoldable pub track_server : Target → List (Text × ℤ) → Result ConfigError (List (Text × ℤ))
unfolding admit_server normalize_server_install_id
track_server t servers =
    if is_empty t.server_install_id
    then ok servers
    else admit_server t (normalize_server_install_id t.server_install_id) servers

-- The loop that changes the first target with the id; `none` if there is none.
unfoldable pub change_first : (Target → Target) → ℤ → List Target → Option (List Target)
change_first f id [] = none
change_first f id (t ∷ ts) =
    let rest = change_first f id ts in
    if int_eq t.id id
    then some (f t ∷ ts)
    else elim rest [ none ↦ none | some ts' ↦ some (t ∷ ts') ]

-- A config without a version gets the current one.
unfoldable pub current_version : ℤ → ℤ
current_version v = if int_eq v (pos 0) then config_version else v

-- What Replace and UpdateKey assign to the target that they find.
abbrev pub new_target : Text → Text → Text → Target → Target
new_target endpoint key server_install_id t = record t {
  url = trim_space endpoint;
  key = trim_space key;
  server_install_id = trim_space server_install_id;
}

abbrev pub new_key : Text → Target → Target
new_key key t = record t { key = trim_space key }

module _ (parse_url : Text → Option Url) where
  pub validate_url : Text → Result UrlError (Unit {0})
  unfolding check_url
  validate_url raw =
      let raw = trim_space raw in if is_empty raw then err empty_url else check_url (parse_url raw)

  -- One round of the loop of Validate, over its two maps.
  unfoldable pub validate_target :
      List ℤ → List (Text × ℤ) → Target → Result ConfigError (List (Text × ℤ))
  unfolding validate_url wrap_url_error
  validate_target ids servers t = do
    fail_if (not (is_positive t.id)) bad_id
    fail_if (exists_in (int_eq t.id) ids) (duplicate_id t.id)
    wrap_url_error t.id (validate_url t.url)
    fail_if (is_empty (trim_space t.key)) (empty_key t.id)
    track_server t servers

  pub validate_targets : List ℤ → List (Text × ℤ) → List Target → Result ConfigError (Unit {0})
  validate_targets ids servers [] = ok tt
  validate_targets ids servers (t ∷ ts) =
      validate_target ids servers t >>= λ servers'. validate_targets (t.id ∷ ids) servers' ts

  unfoldable pub validate : Config → Result ConfigError (Unit {0})
  unfolding validate_targets
  validate cfg = do
    fail_if (not (int_eq cfg.version config_version)) bad_version
    validate_targets [] [] cfg.targets

  -- `if err := next.Validate(); err != nil { return err }; return next`.
  pub validated : Config → Result ConfigError Config
  validated next = validate next >>= λ _. ok next

  unfoldable pub add : Config → Text → Text → Text → Result ConfigError (Config × Target)
  unfolding validated
  add cfg endpoint key server_install_id =
      let target : Target = record {
        id = next_id cfg.targets;
        url = trim_space endpoint;
        key = trim_space key;
        server_install_id = trim_space server_install_id;
      } in
      validated
        (record { version = current_version cfg.version; targets = cfg.targets ++ target ∷ [] })
      >>= λ next. ok (next, target)

  pub remove : Config → ℤ → Result ConfigError Config
  unfolding validated
  remove cfg id =
      if exists_in (λ t. int_eq t.id id) cfg.targets
      then validated (record cfg { targets = keep (λ t. not (int_eq t.id id)) cfg.targets })
      else err not_found

  pub edit : (Target → Target) → Config → ℤ → Result ConfigError Config
  unfolding change_first validated
  edit f cfg id = elim (change_first f id cfg.targets) [
    | none ↦ err not_found
    | some ts ↦ validated (record cfg { targets = ts })
  ]

  pub replace : Config → ℤ → Text → Text → Text → Result ConfigError Config
  unfolding edit
  replace cfg id endpoint key server_install_id =
      edit (new_target endpoint key server_install_id) cfg id

  pub update_key : Config → ℤ → Text → Result ConfigError Config
  unfolding edit
  update_key cfg id key = edit (new_key key) cfg id
