-- ===== src/ReportCfg/Admission.antt =====
-- Add: a new target gets a fresh id, and removing it again gives the old config.
use ithiltir_node.Base.{
  ℕ, ◌+◌, ◌-◌, ◌^◌, ◌≤◌, ◌<◌, ◌≡◌, ◌≢◌, ◌⊎◌, inr, refl, sym, ◌∙◌, Option, List, [], ◌∷◌, ◌++◌, true,
  false, Text, trim_space, trim_space_idem, ℤ, pos, pos_part, wrap_int_small, int_eq, int_eq_iff,
  All, All-append, is_positive, arith, ok, >>=-eq-ok, ◌>>=◌, if◌then◌else◌, ltb,
}
use ithiltir_node.ReportCfg.{
  Url, Target, Config, config_version, max_id, next_id, current_version, validated, add, remove,
}
use ithiltir_node.ReportCfg.Shape.{server, IsEndpoint, Apart, AllApart, IsProper, IsValid}
use ithiltir_node.ReportCfg.Ids.{has_id, without, Vacant, without-Misses, Misses}
use ithiltir_node.ReportCfg.Edits.{validated_ok, validated-IsValid}

le-max_id : (m : ℕ) (ts : List Target) → m ≤ max_id m ts
unfolding max_id
le-max_id m [] = omega arith
le-max_id m (t ∷ ts) = ground (arith, le-max_id m ts, le-max_id (pos_part t.id) ts)

-- The ids of a list are at most its largest id.
AtMost : ℕ → List Target → Type 0
AtMost m = All (λ t. pos_part t.id ≤ m)

AtMost-max_id : (m : ℕ) (ts : List Target) → AtMost (max_id m ts) ts
unfolding AtMost max_id
AtMost-max_id m [] = tt
AtMost-max_id m (t ∷ ts) =
    let m' = if ltb m (pos_part t.id) then pos_part t.id else m in
    (ground (arith, le-max_id m' ts), AtMost-max_id m' ts)

max_id-lt : (n m : ℕ) (ts : List Target) → m < n → All (λ t. pos_part t.id < n) ts → max_id m ts < n
unfolding max_id
max_id-lt n m [] h a = h
max_id-lt n m (t ∷ ts) h a =
    max_id-lt n (if ltb m (pos_part t.id) then pos_part t.id else m) ts (ground arith) a.1

Misses-above : (k m : ℕ) (ts : List Target) → m < k → AtMost m ts → Misses (pos k) ts
unfolding AtMost
Misses-above k m [] h a = tt
Misses-above k m (t ∷ ts) h a = (ground (arith, int_eq_iff t.id (pos k)), Misses-above k m ts h a.1)

has_id-Misses : (id : ℤ) (ts : List Target) → Misses id ts → has_id id ts ≡ false
has_id-Misses id [] h = refl
has_id-Misses id (t ∷ ts) h = ground (arith, has_id-Misses id ts h.1)

AllApart-snoc :
    (ts : List Target) (t : Target)
    → AllApart ts
    → Misses t.id ts
    → All (Vacant t.id (server t)) ts
    → AllApart (ts ++ t ∷ [])
AllApart-snoc [] t a m v = (tt, tt)
AllApart-snoc (u ∷ ts) t a m v = (
  All-append (Apart u) ts (t ∷ []) a.0 (ground (arith, int_eq_iff u.id t.id), tt),
  AllApart-snoc ts t a.1 m.1 v.1,
)

AllApart-last : (ts : List Target) (t : Target) → AllApart (ts ++ t ∷ []) → Misses t.id ts
AllApart-last [] t a = tt
AllApart-last (u ∷ ts) t a = (last-Apart u t ts a.0, AllApart-last ts t a.1)
  where
    last-Apart :
        (u t : Target) (ts : List Target) → All (Apart u) (ts ++ t ∷ []) → int_eq u.id t.id ≡ false
    last-Apart u t [] a = ground (arith, int_eq_iff u.id t.id)
    last-Apart u t (w ∷ ts) a = last-Apart u t ts a.1

without-append :
    (id : ℤ) (ts : List Target) (t : Target)
    → int_eq t.id id ≡ true
    → without id (ts ++ t ∷ []) ≡ without id ts
without-append id [] t e = ground arith
without-append id (u ∷ ts) t e = ground (arith, without-append id ts t e)

has_id-append :
    (id : ℤ) (ts : List Target) (t : Target)
    → int_eq t.id id ≡ true
    → has_id id (ts ++ t ∷ []) ≡ true
has_id-append id [] t e = ground arith
has_id-append id (u ∷ ts) t e = ground (arith, has_id-append id ts t e)

current_version_kept : (v : ℤ) → v ≡ config_version → current_version v ≡ v
unfolding current_version
current_version_kept v h = ground (arith, int_eq_iff v (pos 0))

free_Vacant :
    (id : ℤ) (s : Text) (ts : List Target)
    → All (λ t. (s ≡ []) ⊎ (s ≢ server t)) ts
    → All (Vacant id s) ts
free_Vacant id s [] h = tt
free_Vacant id s (t ∷ ts) h = (inr h.0, free_Vacant id s ts h.1)

-- The target that Add appends.
abbrev pub added : Config → Text → Text → Text → Target
added cfg endpoint key server_install_id = record {
  id = next_id cfg.targets;
  url = trim_space endpoint;
  key = trim_space key;
  server_install_id = trim_space server_install_id;
}

module _ (parse_url : Text → Option Url) where
  add_lem :
      (cfg : Config) (endpoint key server_install_id : Text)
      → cfg.version ≡ config_version
      → let t = added cfg endpoint key server_install_id in
        add parse_url cfg endpoint key server_install_id ≡ (
          validated parse_url (record cfg { targets = cfg.targets ++ t ∷ [] }) >>= λ next.
          ok (next, t))
  unfolding add
  add_lem cfg endpoint key server_install_id h = rw (current_version_kept cfg.version h)

  added_fresh :
      (cfg : Config)
      → All (λ t. pos_part t.id < 2 ^ 63 - 1) cfg.targets
      → (is_positive (next_id cfg.targets) ≡ true) × Misses (next_id cfg.targets) cfg.targets
  unfolding next_id
  added_fresh cfg small =
      let m = max_id 0 cfg.targets in
      let bound = max_id-lt (2 ^ 63 - 1) 0 cfg.targets (omega arith) small in
      rw (wrap_int_small (m + 1) (omega arith)) (
        ground arith,
        Misses-above (m + 1) m cfg.targets (omega arith) (AtMost-max_id 0 cfg.targets),
      )

  -- Adding to a valid config a URL that Validate takes, a key that is not blank and an install id
  -- that no target has, while no id is the largest int: the call succeeds, the new config is
  -- valid, has the old targets and then the new one, whose id no old target has.
  pub add-IsValid :
      (cfg : Config) (endpoint key server_install_id : Text)
      → IsValid parse_url cfg
      → All (λ t. pos_part t.id < 2 ^ 63 - 1) cfg.targets
      → trim_space endpoint ≢ []
      → IsEndpoint (parse_url (trim_space endpoint))
      → trim_space key ≢ []
      → All
          (λ t. (trim_space server_install_id ≡ []) ⊎ (trim_space server_install_id ≢ server t))
          cfg.targets
      → let t = added cfg endpoint key server_install_id in
        let next = record cfg { targets = cfg.targets ++ t ∷ [] } in
        (add parse_url cfg endpoint key server_install_id ≡ ok (next, t))
        × IsValid parse_url next
        × (has_id t.id cfg.targets ≡ false)
  add-IsValid cfg endpoint key server_install_id v small e p k free =
      let t = added cfg endpoint key server_install_id in
      let (positive, fresh) = added_fresh cfg small in
      let next : Config = record cfg { targets = cfg.targets ++ t ∷ [] } in
      let proper : IsProper parse_url t = record {
        positive = positive;
        addressed = rw (trim_space_idem endpoint) e;
        reachable = rw (trim_space_idem endpoint) p;
        keyed = rw (trim_space_idem key) k;
        named = ground (arith, trim_space_idem server_install_id);
      } in
      let valid : IsValid parse_url next = record {
        current = v.current;
        proper = All-append (IsProper parse_url) cfg.targets (t ∷ []) v.proper (proper, tt);
        apart =
            AllApart-snoc cfg.targets t v.apart fresh (
              free_Vacant t.id (server t) cfg.targets
                (rw (trim_space_idem server_install_id) free));
      } in
      (
        rw (
          add_lem cfg endpoint key server_install_id v.current,
          validated_ok parse_url next valid,
        ),
        valid,
        has_id-Misses t.id cfg.targets fresh,
      )

  -- Removing the target that was just added gives the old config back.
  remove-add :
      (cfg next : Config) (t : Target) (endpoint key server_install_id : Text)
      → IsValid parse_url cfg
      → add parse_url cfg endpoint key server_install_id ≡ ok (next, t)
      → remove parse_url next t.id ≡ ok cfg
  unfolding remove
  remove-add cfg next t endpoint key server_install_id v h =
      let t' = added cfg endpoint key server_install_id in
      let grown : Config = record cfg { targets = cfg.targets ++ t' ∷ [] } in
      let run = sym (add_lem cfg endpoint key server_install_id v.current) ∙ h in
      let (n, done, pair) = >>=-eq-ok (validated parse_url grown) (λ next. ok (next, t')) run in
      let (n_eq, valid) = validated-IsValid parse_url grown n done in
      let missing : Misses t'.id cfg.targets = AllApart-last cfg.targets t' valid.apart in
      let self = (int_eq_iff t'.id t'.id).1 refl in
      let next_eq : next ≡ grown = ground arith in
      let t_eq : t ≡ t' = ground arith in
      rw (next_eq, t_eq)
        (rw
          (
            has_id-append t'.id cfg.targets t' self,
            without-append t'.id cfg.targets t' self,
            without-Misses t'.id cfg.targets missing,
          )
          (validated_ok parse_url cfg v))
