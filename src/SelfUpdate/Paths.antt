-- ===== src/SelfUpdate/Paths.antt =====
-- The path of a release and the version that is read from it.
use ithiltir_node.Base.{
  ◌≡◌, refl, ap, ◌∙◌, Bool, true, false, ◌||◌, Option, some, [], ◌∷◌, ◌++◌, Text, codes, text_eq,
  text_eq_refl, trim_space, trim_space_empty, ◌==◌, ok, >>=-eq-ok, fail_if, is_empty, arith,
}
use ithiltir_node.ReportCfg.{Url}
use ithiltir_node.Push.Update.{Manifest}
use ithiltir_node.SelfUpdate.{
  is_separator, has_separator, check_version, validate, Dir, node_name, start_with, split_path,
  enter, enter_all, join, releases_dir, release_dir, release_node_path, base, rel, version_of,
  unix_release_version, version_empty, version_invalid,
}

-- A text that is one component of a path.
abbrev pub IsComponent : Text → Type 0
IsComponent s =
    (has_separator s ≡ false)
    × (is_empty s || text_eq s (codes ".") ≡ false)
    × (text_eq s (codes "..") ≡ false)

split_one : (s : Text) → has_separator s ≡ false → split_path s ≡ s ∷ []
unfolding has_separator is_separator split_path start_with
split_one [] h = refl
split_one (c ∷ s) h =
    let rest = split_one s (ground arith) in
    let other : (c == 47) ≡ false = ground arith in rw (other, rest) refl

join_one : (dir : Dir) (s : Text) → IsComponent s → join dir s ≡ dir ++ s ∷ []
unfolding join enter_all enter
join_one dir s (h, plain, up) = rw (split_one s h, plain, up) refl

base_last : (dir : Dir) (s : Text) → base (dir ++ s ∷ []) ≡ s
unfolding base
base_last [] s = refl
base_last (c ∷ []) s = refl
base_last (c ∷ d ∷ dir) s = base_last (d ∷ dir) s

rel_inside : (dir rest : Dir) → rel dir (dir ++ rest) ≡ some rest
unfolding rel
rel_inside [] rest = refl
rel_inside (c ∷ dir) rest = rw (rel_inside dir rest, text_eq_refl c) refl

append_assoc : (a b c : Dir) → (a ++ b) ++ c ≡ a ++ (b ++ c)
append_assoc [] b c = refl
append_assoc (x ∷ a) b c = ap (λ t. x ∷ t) (append_assoc a b c)

node-IsComponent : IsComponent node_name
unfolding has_separator is_separator text_eq
node-IsComponent = (refl, refl, refl)

pub release_lem :
    (home : Dir) (version : Text)
    → IsComponent version
    → unix_release_version home (release_node_path home version) ≡ some version
unfolding unix_release_version release_node_path release_dir
release_lem home version h =
    let root = releases_dir home in
    let at : join (join root version) node_name ≡ (root ++ version ∷ []) ++ node_name ∷ [] =
      join_one (join root version) node_name node-IsComponent
      ∙ ap (λ dir. dir ++ node_name ∷ []) (join_one root version h) in
    rw
      (
        at,
        base_last (root ++ version ∷ []) node_name,
        append_assoc root (version ∷ []) (node_name ∷ []),
        rel_inside root (version ∷ node_name ∷ []),
      )
      (unfold version_of in rw (text_eq_refl node_name) refl)

pub fail_if_ok : {E : Type 0} (b : Bool) (e : E) (u : Unit {0}) → fail_if b e ≡ ok u → b ≡ false
fail_if_ok true e u h = cc
fail_if_ok false e u h = refl

not_blank : (s : Text) → is_empty (trim_space s) ≡ false → is_empty s ≡ false
not_blank [] h = cc (h, ap (λ t. is_empty t) (trim_space_empty [] refl))
not_blank (c ∷ s) h = refl

pub version-IsComponent : (version : Text) → check_version version ≡ ok tt → IsComponent version
unfolding check_version
version-IsComponent version h =
    let (u, filled, rest) = >>=-eq-ok (fail_if (is_empty (trim_space version)) version_empty) _ h in
    let (v, named, last) =
      >>=-eq-ok
        (fail_if (text_eq version (codes ".") || text_eq version (codes "..")) version_invalid) _
        rest in
    let blank = not_blank version (fail_if_ok _ _ u filled) in
    let dots = fail_if_ok _ _ v named in (fail_if_ok _ _ tt last, ground arith, ground arith)

-- The version of a manifest that passes the checks is one component of a path: the release goes
-- right below the directory of the releases, and its path gives the version back.
pub release-validate :
    (parse_url : Text → Option Url) (home : Dir) (m : Manifest)
    → validate parse_url m ≡ ok tt
    → (release_dir home m.version ≡ releases_dir home ++ m.version ∷ [])
      × (unix_release_version home (release_node_path home m.version) ≡ some m.version)
unfolding validate release_dir
release-validate parse_url home m h =
    let (u, passed, _) = >>=-eq-ok (check_version m.version) _ h in
    let one = version-IsComponent m.version passed in
    (join_one (releases_dir home) m.version one, release_lem home m.version one)
