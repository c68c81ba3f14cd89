-- ===== src/Install/Report/Again.antt =====
-- Running the same install again changes nothing.
use ithiltir_node.Base.{
  ◌≡◌, ◌≢◌, ◌⊎◌, inl, inr, refl, sym, ◌∙◌, ap, subst, Bool, true, false, Option, none, some, List,
  [], ◌∷◌, ◌++◌, Text, text_eq, text_eq_iff, text_eq_refl, All, trim_space, trim_space_idem, ℤ,
  is_empty, first, arith, Bool-cases, int_eq, int_eq_iff,
}
use ithiltir_node.ReportCfg.{Url, Target, Config, new_target}
use ithiltir_node.ReportCfg.Shape.{server, Apart, AllApart, IsValid}
use ithiltir_node.ReportCfg.Outcomes.{add_outcome, replace_outcome, first-change_first}
use ithiltir_node.Install.Files.{Stored, present}
use ithiltir_node.Install.Report.{
  Identity, Env, duplicate_target, same_report_target, install_identified, install_fetched,
  install_known, save_report_install,
}
use ithiltir_node.Install.Report.Writes.{Edit, appended, replaced, incoming, install_Writes}

-- The test of duplicateTarget.
abbrev names : Text → Target → Bool
names s t = text_eq (server t) s

first-append :
    (p : Target → Bool) (ts : List Target) (t : Target)
    → first p ts ≡ none
    → p t ≡ true
    → first p (ts ++ t ∷ []) ≡ some t
first-append p [] t h e = ground arith
first-append p (u ∷ ts) t h e = ground (arith, first-append p ts t)

first-none :
    (p : Target → Bool) (id : ℤ) (ts : List Target)
    → first p ts ≡ none
    → All (λ t. (p t ≡ false) ⊎ (int_eq t.id id ≡ true)) ts
first-none p id [] h = tt
first-none p id (t ∷ ts) h = ground (arith, first-none p id ts)

Apart-names :
    (s : Text) (x : Target) (ts : List Target)
    → s ≢ []
    → server x ≡ s
    → All (Apart x) ts
    → All (λ t. (names s t ≡ false) ⊎ (int_eq t.id x.id ≡ true)) ts
Apart-names s x [] n e a = tt
Apart-names s x (t ∷ ts) n e a =
    (inl (ground (arith, text_eq_iff (server t) s)), Apart-names s x ts n e a.1)

-- In a valid list the target found by its server is the only one.
first-some :
    (s : Text) (x : Target) (ts : List Target)
    → s ≢ []
    → AllApart ts
    → first (names s) ts ≡ some x
    → All (λ t. (names s t ≡ false) ⊎ (int_eq t.id x.id ≡ true)) ts
first-some s x [] n a h = tt
first-some s x (t ∷ ts) n a h = elim (Bool-cases (names s t)) [
  | inl e ↦
      let same : t ≡ x = ground arith in
      subst (λ (y : Target). All (λ t. (names s t ≡ false) ⊎ (int_eq t.id y.id ≡ true)) (t ∷ ts))
        same
        (
          inr ((int_eq_iff t.id t.id).1 refl),
          Apart-names s t ts n ((text_eq_iff (server t) s).0 e) a.0,
        )
  | inr e ↦ (inl e, first-some s x ts n a.1 (ground arith))
]

duplicate_target_lem :
    (cfg : Config) (id : Text)
    → trim_space id ≢ []
    → duplicate_target cfg id ≡ first (names (trim_space id)) cfg.targets
unfolding duplicate_target
duplicate_target_lem cfg id n = ground arith

same_incoming :
    (t : Target) (endpoint key : Text) (i : Identity)
    → t.url ≡ trim_space endpoint
    → t.key ≡ trim_space key
    → t.server_install_id ≡ trim_space i.install_id
    → same_report_target t (incoming endpoint key i) ≡ true
unfolding same_report_target
same_incoming t endpoint key i u k s =
    rw (u, k, s, trim_space_idem endpoint, trim_space_idem key, trim_space_idem i.install_id)
      (rw (
        text_eq_refl (trim_space endpoint),
        text_eq_refl (trim_space key),
        text_eq_refl (trim_space i.install_id),
      ))

module _ (parse_url : Text → Option Url) where
  -- Once the server's target is the one asked for, an install prints it and stops.
  settled :
      (env : Env) (file : Stored) (cfg : Config) (endpoint key : Text) (i : Identity) (t : Target)
      → env.identity ≡ some i
      → duplicate_target cfg i.install_id ≡ some t
      → same_report_target t (incoming endpoint key i) ≡ true
      → let o = save_report_install parse_url env file cfg endpoint key in
        (o.code ≡ 0) × (o.file ≡ file)
  unfolding save_report_install
  settled env file cfg endpoint key i t e d same = known _
    where
      fetched :
          (u : Option Target)
          → let o =
              install_fetched parse_url env file cfg
                (trim_space endpoint)
                (trim_space key)
                u
                env.identity in
            (o.code ≡ 0) × (o.file ≡ file)
      fetched u = rw (e, install_fetched) (rw (d, install_identified) (rw same (refl, refl)))

      known :
          (u : Option Target)
          → let o = install_known parse_url env file cfg (trim_space endpoint) (trim_space key) u in
            (o.code ≡ 0) × (o.file ≡ file)
      known none = fetched none
      known (some t) = elim (Bool-cases (is_empty (trim_space t.server_install_id))) [
        | inl blank ↦ rw blank (fetched (some t))
        | inr named ↦ rw named (refl, refl)
      ]

  -- After an edit the server's target is the one asked for.
  Edit-settles :
      (cfg next : Config) (endpoint key : Text) (i : Identity)
      → IsValid parse_url cfg
      → trim_space i.install_id ≢ []
      → Edit parse_url cfg (incoming endpoint key i) next
      → (t : Target) × (duplicate_target next i.install_id ≡ some t)
        × (same_report_target t (incoming endpoint key i) ≡ true)
  Edit-settles cfg next endpoint key i v n (appended new a d) =
      let (is_new, grown, _) =
        add_outcome parse_url cfg next new (trim_space endpoint) (trim_space key) i.install_id a in
      let absent = sym (duplicate_target_lem cfg i.install_id n) ∙ d in
      (
        new,
        rw (duplicate_target_lem next i.install_id n, grown)
            (first-append (names (trim_space i.install_id)) cfg.targets new absent (
              rw is_new
                (rw (trim_space_idem i.install_id) (text_eq_refl (trim_space i.install_id))))),
        same_incoming new endpoint key i
            (ap (λ (t : Target). t.url) is_new ∙ trim_space_idem endpoint)
            (ap (λ (t : Target). t.key) is_new ∙ trim_space_idem key)
            (ap (λ (t : Target). t.server_install_id) is_new),
      )
  Edit-settles cfg next endpoint key i v n (replaced old r d) =
      let s = trim_space i.install_id in
      let f = new_target (trim_space endpoint) (trim_space key) i.install_id in
      let (ts, run, is_next, _) =
        replace_outcome parse_url cfg next old.id (trim_space endpoint) (trim_space key)
          i.install_id r in
      let only : All (λ t. (names s t ≡ false) ⊎ (int_eq t.id old.id ≡ true)) cfg.targets = elim d [
        | inl absent ↦
            first-none (names s) old.id cfg.targets
              (sym (duplicate_target_lem cfg i.install_id n) ∙ absent)
        | inr found ↦
            first-some s old cfg.targets n v.apart
              (sym (duplicate_target_lem cfg i.install_id n) ∙ found)
      ] in
      let (t, found) =
        first-change_first (names s) f old.id cfg.targets ts
          (λ t. rw (trim_space_idem i.install_id) (text_eq_refl s)) only run in
      (
        f t,
        rw (duplicate_target_lem next i.install_id n, is_next) found,
        same_incoming (f t) endpoint key i (trim_space_idem endpoint) (trim_space_idem key) refl,
      )

  -- When an install over a valid config has written the file, the same install on the new file
  -- with the same server exits with code 0 and leaves the file alone, whatever the terminal says.
  pub install_again :
      (env env' : Env) (file : Stored) (cfg next : Config) (endpoint key : Text) (i : Identity)
      → IsValid parse_url cfg
      → env.identity ≡ some i
      → env'.identity ≡ some i
      → trim_space i.install_id ≢ []
      → (save_report_install parse_url env file cfg endpoint key).file ≢ file
      → (save_report_install parse_url env file cfg endpoint key).file ≡ present next
      → let o = save_report_install parse_url env' (present next) next endpoint key in
        (o.code ≡ 0) × (o.file ≡ present next)
  install_again env env' file cfg next endpoint key i v e e' n changed wrote =
      elim (install_Writes parse_url env file cfg endpoint key) [
        | inl same ↦ absurd (changed same)
        | inr (j, at_j, next', wrote', edit) ↦
            let same_i : j ≡ i = ground arith in
            let same_next : next' ≡ next = ground arith in
            let (t, d, same) = Edit-settles cfg next endpoint key i v n (
              subst (λ m. Edit parse_url cfg (incoming endpoint key i) m) same_next
                (subst (λ k. Edit parse_url cfg (incoming endpoint key k) next') same_i edit)) in
            settled env' (present next) next endpoint key i t e' d same
      ]
