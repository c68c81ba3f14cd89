-- ===== src/Push/Urls.antt =====
-- internal/push/push.go: the paths that go with a target's report URL, and how often the static
-- snapshot is checked for a change.
mod Examples
use ithiltir_node.Base.{
  ℕ, ◌*◌, ◌≤◌, ◌≡◌, inl, inr, refl, ap, ◌∙◌, min, max, true, Option, none, some, [], ◌∷◌, ◌++◌,
  Text, text_eq, text_eq_iff, codes, second, minute, leb, if◌then◌else◌, Bool-cases, arith,
}

put_first : ℕ → Option Text → Option Text
put_first c none = none
put_first c (some s) = some (c ∷ s)

-- strings.HasSuffix with strings.TrimSuffix: what stands before the suffix.
cut_suffix : Text → Text → Option Text
unfolding put_first
cut_suffix suffix [] = if text_eq [] suffix then some [] else none
cut_suffix suffix (c ∷ s) =
    let rest = put_first c (cut_suffix suffix s) in if text_eq (c ∷ s) suffix then some [] else rest

with_suffix : Text → Option Text → Option Text
with_suffix s none = none
with_suffix s (some base) = some (base ++ s)

-- The paths of staticURL and identityURL; `none` is the empty URL.
static_path : Text → Option Text
unfolding with_suffix cut_suffix
static_path path = with_suffix (codes "/static") (cut_suffix (codes "/metrics") path)

identity_path : Text → Option Text
unfolding with_suffix cut_suffix
identity_path path = with_suffix (codes "/identity") (cut_suffix (codes "/metrics") path)

-- staticChangeCheckInterval.
change_check_interval : ℕ → ℕ
change_check_interval interval =
    if leb minute interval then minute else min minute (max (10 * second) (interval * 20))

put_first-some :
    (c : ℕ) (suffix s base : Text) (r : Option Text)
    → ((b : Text) → r ≡ some b → s ≡ b ++ suffix)
    → put_first c r ≡ some base
    → c ∷ s ≡ base ++ suffix
unfolding put_first
put_first-some c suffix s base none ih h = cc h
put_first-some c suffix s base (some b) ih h =
    let e : c ∷ b ≡ base = ground arith in ap (λ r. c ∷ r) (ih b refl) ∙ ap (λ r. r ++ suffix) e

whole : (suffix s base : Text) → text_eq s suffix ≡ true → some [] ≡ some base → s ≡ base ++ suffix
whole suffix s base e h =
    let none_left : [] ≡ base = ground arith in
    (text_eq_iff s suffix).0 e ∙ ap (λ r. r ++ suffix) none_left

cut_suffix-some : (suffix s base : Text) → cut_suffix suffix s ≡ some base → s ≡ base ++ suffix
unfolding cut_suffix
cut_suffix-some suffix [] base h = elim (Bool-cases (text_eq [] suffix)) [
  | inl e ↦ whole suffix [] base e (rw e at h)
  | inr e ↦ cc (rw e at h)
]
cut_suffix-some suffix (c ∷ s) base h = elim (Bool-cases (text_eq (c ∷ s) suffix)) [
  | inl e ↦ whole suffix (c ∷ s) base e (rw e at h)
  | inr e ↦
      put_first-some c suffix s base (cut_suffix suffix s) (cut_suffix-some suffix s) (rw e at h)
]

path_from :
    (path p : Text) (r : Option Text)
    → ((b : Text) → r ≡ some b → path ≡ b ++ codes "/metrics")
    → with_suffix (codes "/static") r ≡ some p
    → (base : Text) × (path ≡ base ++ codes "/metrics")
      × (p ≡ base ++ codes "/static")
      × (with_suffix (codes "/identity") r ≡ some (base ++ codes "/identity"))
unfolding with_suffix
path_from path p none ih h = cc h
path_from path p (some b) ih h = (b, ih b refl, ground arith, refl)

-- Where a target takes static snapshots, its report path is some base before /metrics, and the
-- path of the snapshots and that of the identity are the same base before /static and /identity.
static_path_lem :
    (path p : Text)
    → static_path path ≡ some p
    → (base : Text) × (path ≡ base ++ codes "/metrics")
      × (p ≡ base ++ codes "/static")
      × (identity_path path ≡ some (base ++ codes "/identity"))
unfolding static_path identity_path
static_path_lem path p h =
    path_from path p (cut_suffix (codes "/metrics") path) (cut_suffix-some (codes "/metrics") path)
      h

-- A static check comes at least ten seconds after the last, and at most a minute.
change_check_interval_lem :
    (interval : ℕ)
    → (10 * second ≤ change_check_interval interval) × (change_check_interval interval ≤ minute)
unfolding change_check_interval
change_check_interval_lem interval = ground arith
