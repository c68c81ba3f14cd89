-- ===== src/SelfUpdate.antt =====
-- internal/selfupdate/update.go: the checks of a manifest, the download, and the paths of the
-- releases. The hash, strings.EqualFold and url.Parse are parameters; a clean absolute path is the
-- list of its components; the text of an error is left out.
pub mod Paths
pub mod Unix
pub mod Windows
mod Examples
use ithiltir_node.Base.{
  ℕ, zero, suc, ◌+◌, Bool, true, false, ◌||◌, not, Option, none, some, List, [], ◌∷◌, ◌++◌, Text,
  codes, text_eq, trim_space, byte_length, ℤ, pos, negsuc, pos_part, is_positive, wrap_int, ltb,
  leb, ◌==◌, if◌then◌else◌, Result, ok, err, ◌>>◌, fail_if, is_empty, exists_in, length,
}
use ithiltir_node.ReportCfg.{Url}
use ithiltir_node.Push.Update.{Manifest}

pub data UpdateError : Type 0 where
  version_empty version_invalid version_separator sha_empty sha_length size_not_positive
        size_too_large url_unparsed url_scheme url_host :
      UpdateError
  not_sent bad_status not_chmod not_written too_long wrong_size wrong_sha not_synced : UpdateError

pub int_leb : ℤ → ℤ → Bool
int_leb (pos m) (pos n) = leb m n
int_leb (pos m) (negsuc n) = false
int_leb (negsuc m) (pos n) = true
int_leb (negsuc m) (negsuc n) = leb n m

-- `size+1 <= size` of a positive int64.
pub is_too_large : ℤ → Bool
unfolding int_leb
is_too_large size = int_leb (wrap_int (pos_part size + 1)) size

-- strings.ContainsAny(version, `/\`).
is_separator : ℕ → Bool
is_separator c = c == 47 || c == 92

pub has_separator : Text → Bool
unfolding is_separator
has_separator s = exists_in is_separator s

check_url : Option Url → Result UpdateError (Unit {0})
check_url none = err url_unparsed
check_url (some u) =
    fail_if (not (text_eq u.scheme (codes "http") || text_eq u.scheme (codes "https"))) url_scheme
    >> fail_if (is_empty u.host) url_host

pub check_version : Text → Result UpdateError (Unit {0})
unfolding has_separator
check_version version =
    fail_if (is_empty (trim_space version)) version_empty
    >> (fail_if (text_eq version (codes ".") || text_eq version (codes "..")) version_invalid
        >> fail_if (has_separator version) version_separator)

pub check_asset : Manifest → Result UpdateError (Unit {0})
unfolding is_too_large
check_asset m =
    fail_if (is_empty (trim_space m.sha256)) sha_empty
    >> (fail_if (not (byte_length (trim_space m.sha256) == 64)) sha_length
        >> (fail_if (not (is_positive m.size)) size_not_positive
            >> fail_if (is_too_large m.size) size_too_large))

pub validate : (Text → Option Url) → Manifest → Result UpdateError (Unit {0})
unfolding check_version check_asset check_url
validate parse_url m =
    check_version m.version >> (check_asset m >> check_url (parse_url (trim_space m.url)))

-- What the request for an asset meets: no response, or a status and a body that may break off.
pub record Fetched : Type 0 where
  pub sent : Bool
  pub status : ℕ
  pub chmod_ok : Bool
  pub body : List ℕ
  pub body_ok : Bool
  pub sync_ok : Bool

-- io.LimitReader: at most `n` bytes.
pub limit : ℕ → List ℕ → List ℕ
limit n [] = []
limit zero (b ∷ bs) = []
limit (suc n) (b ∷ bs) = b ∷ limit n bs

-- The tests of what was copied.
pub check_copy :
    (List ℕ → Text) → (Text → Text → Bool) → Manifest → List ℕ → Result UpdateError (Unit {0})
check_copy sum equal_fold m copied =
    fail_if (ltb (pos_part m.size) (length copied)) too_long
    >> (fail_if (not (length copied == pos_part m.size)) wrong_size
        >> fail_if (not (equal_fold (sum copied) (trim_space m.sha256))) wrong_sha)

-- download: the content of the temporary file, for a manifest with a positive size.
pub download :
    (List ℕ → Text) → (Text → Text → Bool) → Fetched → Manifest → Result UpdateError (List ℕ)
unfolding check_copy limit
download sum equal_fold f m =
    let copied = limit (pos_part m.size + 1) f.body in
    fail_if (not f.sent) not_sent
    >> (fail_if (not (f.status == 200)) bad_status
        >> (fail_if (not f.chmod_ok) not_chmod
            >> (fail_if (not f.body_ok) not_written
                >> (check_copy sum equal_fold m copied
                    >> (fail_if (not f.sync_ok) not_synced >> ok copied)))))

-- A clean absolute path.
abbrev pub Dir : Type 0
Dir = List Text

abbrev pub node_name : Text
node_name = codes "ithiltir-node"

-- A byte before the first component.
start_with : ℕ → List Text → List Text
start_with c [] = (c ∷ []) ∷ []
start_with c (w ∷ ws) = (c ∷ w) ∷ ws

-- The components of a relative path.
pub split_path : Text → List Text
unfolding start_with
split_path [] = [] ∷ []
split_path (c ∷ s) = if c == 47 then [] ∷ split_path s else start_with c (split_path s)

drop_last : Dir → Dir
drop_last [] = []
drop_last (c ∷ []) = []
drop_last (c ∷ d ∷ dir) = c ∷ drop_last (d ∷ dir)

enter : Dir → Text → Dir
unfolding drop_last
enter dir c =
    if is_empty c || text_eq c (codes ".")
    then dir
    else if text_eq c (codes "..")
    then drop_last dir
    else dir ++ c ∷ []

enter_all : Dir → List Text → Dir
unfolding enter
enter_all dir [] = dir
enter_all dir (c ∷ cs) = enter_all (enter dir c) cs

-- filepath.Join.
pub join : Dir → Text → Dir
unfolding enter_all split_path
join dir s = enter_all dir (split_path s)

pub releases_dir : Dir → Dir
releases_dir home = join home (codes "releases")

current_node_path : Dir → Dir
current_node_path home = join (join home (codes "current")) node_name

pub release_dir : Dir → Text → Dir
unfolding releases_dir
release_dir home version = join (releases_dir home) version

pub release_node_path : Dir → Text → Dir
unfolding release_dir
release_node_path home version = join (release_dir home version) node_name

-- filepath.Base, but for the root.
base : Dir → Text
base [] = codes "/"
base (c ∷ []) = c
base (c ∷ d ∷ dir) = base (d ∷ dir)

-- filepath.Rel of a path inside; `none` starts with "..".
pub rel : Dir → Dir → Option Dir
rel [] path = some path
rel (c ∷ dir) [] = none
rel (c ∷ dir) (d ∷ path) = let rest = rel dir path in if text_eq c d then rest else none

version_of : Option Dir → Option Text
version_of none = none
version_of (some []) = none
version_of (some (v ∷ [])) = none
version_of (some (v ∷ f ∷ [])) = if text_eq f node_name then some v else none
version_of (some (v ∷ f ∷ g ∷ rest)) = none

pub unix_release_version : Dir → Dir → Option Text
unfolding base rel version_of releases_dir
unix_release_version home path =
    if text_eq (base path) node_name then version_of (rel (releases_dir home) path) else none
