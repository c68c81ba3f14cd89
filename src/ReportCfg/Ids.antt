-- ===== src/ReportCfg/Ids.antt =====
-- Lists of targets with distinct ids: leaving one out, and changing one.
use ithiltir_node.Base.{
  ◌+◌, ◌≡◌, ◌≢◌, ◌⊎◌, inl, inr, refl, ap, none, some, List, [], ◌∷◌, map, Bool, true, false, not,
  Text, ℤ, int_eq, int_eq_iff, All, arith, exists_in, keep, length, if◌then◌else◌, Bool-cases,
}
use ithiltir_node.ReportCfg.{Target, change_first}
use ithiltir_node.ReportCfg.Shape.{server, Apart, AllApart}

-- Some target has the id.
abbrev pub has_id : ℤ → List Target → Bool
has_id id = exists_in (λ t. int_eq t.id id)

-- The targets with another id.
abbrev pub without : ℤ → List Target → List Target
without id = keep (λ t. not (int_eq t.id id))

-- The change made at the target with the id.
abbrev pub at_id : ℤ → (Target → Target) → Target → Target
at_id id f t = if int_eq t.id id then f t else t

pub All-without {ℓ} :
    (P : Target → Type ℓ) (id : ℤ) (ts : List Target) → All P ts → All P (without id ts)
All-without P id [] h = tt
All-without P id (t ∷ ts) h = ground (arith, All-without P id ts h.1)

pub AllApart-without : (id : ℤ) (ts : List Target) → AllApart ts → AllApart (without id ts)
AllApart-without id [] h = tt
AllApart-without id (t ∷ ts) h =
    ground (arith, AllApart-without id ts h.1, All-without (Apart t) id ts h.0)

-- No target of the list has the id.
abbrev pub Misses : ℤ → List Target → Type 0
Misses id = All (λ t. int_eq t.id id ≡ false)

Apart-Misses :
    (t : Target) (id : ℤ) (ts : List Target) → t.id ≡ id → All (Apart t) ts → Misses id ts
Apart-Misses t id [] e h = tt
Apart-Misses t id (u ∷ ts) e h =
    (ground (arith, int_eq_iff u.id id, h.0.0), Apart-Misses t id ts e h.1)

pub without-Misses : (id : ℤ) (ts : List Target) → Misses id ts → without id ts ≡ ts
without-Misses id [] h = refl
without-Misses id (t ∷ ts) h = ground (arith, without-Misses id ts h.1)

pub has_id-without : (id : ℤ) (ts : List Target) → has_id id (without id ts) ≡ false
has_id-without id [] = refl
has_id-without id (t ∷ ts) = ground (arith, has_id-without id ts)

pub length-without :
    (id : ℤ) (ts : List Target)
    → AllApart ts
    → has_id id ts ≡ true
    → length (without id ts) + 1 ≡ length ts
length-without id [] a h = cc
length-without id (t ∷ ts) a h = elim (Bool-cases (int_eq t.id id)) [
  | inl e ↦
      rw (e, without-Misses id ts (Apart-Misses t id ts ((int_eq_iff t.id id).0 e) a.0))
        (omega arith)
  | inr e ↦ rw e (let ih = length-without id ts a.1 (ground arith) in omega arith)
]

map-at_id-Misses :
    (id : ℤ) (f : Target → Target) (ts : List Target) → Misses id ts → map (at_id id f) ts ≡ ts
map-at_id-Misses id f [] h = refl
map-at_id-Misses id f (t ∷ ts) h = rw h.0 (ap (◌∷◌ t) (map-at_id-Misses id f ts h.1))

-- Changing the first target with the id changes every one, as ids are distinct.
pub change_first-map :
    (id : ℤ) (f : Target → Target) (ts : List Target)
    → AllApart ts
    → has_id id ts ≡ true
    → change_first f id ts ≡ some (map (at_id id f) ts)
unfolding change_first
change_first-map id f [] a h = cc
change_first-map id f (t ∷ ts) a h = elim (Bool-cases (int_eq t.id id)) [
  | inl e ↦ rw (e, map-at_id-Misses id f ts (Apart-Misses t id ts ((int_eq_iff t.id id).0 e) a.0))
  | inr e ↦ rw e (rw (change_first-map id f ts a.1 (ground arith)))
]

pub change_first_missing :
    (id : ℤ) (f : Target → Target) (ts : List Target)
    → has_id id ts ≡ false
    → change_first f id ts ≡ none
unfolding change_first
change_first_missing id f [] h = refl
change_first_missing id f (t ∷ ts) h = ground (arith, change_first_missing id f ts)

module _ (Q : Target → Type 0) (g : Target → Target) where
  All-map-Apart :
      ((t u : Target) → Q t → Q u → Apart t u → Apart (g t) (g u))
      → (t : Target) (us : List Target) → Q t
      → All Q us
      → All (Apart t) us
      → All (Apart (g t)) (map g us)
  All-map-Apart step t [] q qs h = tt
  All-map-Apart step t (u ∷ us) q qs h = (step t u q qs.0 h.0, All-map-Apart step t us q qs.1 h.1)

  pub AllApart-map :
      ((t u : Target) → Q t → Q u → Apart t u → Apart (g t) (g u))
      → (ts : List Target) → All Q ts
      → AllApart ts
      → AllApart (map g ts)
  AllApart-map step [] qs h = tt
  AllApart-map step (t ∷ ts) qs h =
      (All-map-Apart step t ts qs.0 qs.1 h.0, AllApart-map step ts qs.1 h.1)

pub All-map :
    (P : Target → Type 0) (g : Target → Target)
    → ((t : Target) → P t → P (g t))
    → (ts : List Target) → All P ts
    → All P (map g ts)
All-map P g step [] h = tt
All-map P g step (t ∷ ts) h = (step t h.0, All-map P g step ts h.1)

pub always : (ts : List Target) → All (λ _. Unit {0}) ts
always [] = tt
always (t ∷ ts) = (tt, always ts)

-- The targets with another id name another server than `s`, if `s` names one.
abbrev pub Vacant : ℤ → Text → Target → Type 0
Vacant id s t = (int_eq t.id id ≡ true) ⊎ ((s ≡ []) ⊎ (s ≢ server t))

pub Vacant-Apart :
    (id : ℤ) (s : Text) (f : Target → Target) (t u : Target)
    → (f t).id ≡ t.id
    → (f u).id ≡ u.id
    → server (f t) ≡ s
    → server (f u) ≡ s
    → Vacant id s t
    → Vacant id s u
    → Apart t u
    → Apart (at_id id f t) (at_id id f u)
Vacant-Apart id s f t u ht hu st su vt vu a = ground (arith, int_eq_iff t.id id, int_eq_iff u.id id)
