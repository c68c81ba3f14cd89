-- ===== src/Collect/Disks/Roles.antt =====
-- Which device is the primary one.
use ithiltir_node.Base.{
  ℕ, zero, suc, ◌+◌, ◌≤◌, ◌<◌, ◌≡◌, ◌⊎◌, inl, inr, refl, ap, ◌∙◌, Bool, true, false, Option, none,
  some, List, [], ◌∷◌, Text, codes, text_eq, ltb, ◌==◌, length, keep, All, Bool-cases, arith,
}
use ithiltir_node.Collect.Disks.{BaseIo, score_of, best_index, set_roles, apply_roles}

pub nth {ℓ} : {A : Type ℓ} → ℕ → List A → Option A
nth i [] = none
nth zero (a ∷ as') = some a
nth (suc i) (a ∷ as') = nth i as'

abbrev pub is_primary : BaseIo → Bool
is_primary c = text_eq c.role (codes "primary")

pub with_role : Text → BaseIo → BaseIo
with_role role c = record c { role = role }

module _ (scores : List (Text × ℕ)) where
  abbrev pub Most : ℕ → List BaseIo → Type 0
  Most top cs = All (λ c. score_of scores c.name ≤ top) cs

  Most-up : (low top : ℕ) (cs : List BaseIo) → low ≤ top → Most low cs → Most top cs
  Most-up low top [] h m = tt
  Most-up low top (c ∷ cs) h m = (omega (arith, m.0), Most-up low top cs h m.1)

  best_lem :
      (cs : List BaseIo) (i best score : ℕ)
      → ((best_index scores cs i best score ≡ best) × Most score cs)
        ⊎ ((k : ℕ) × (c : BaseIo) × (best_index scores cs i best score ≡ i + k)
            × (nth k cs ≡ some c)
            × (score < score_of scores c.name)
            × Most (score_of scores c.name) cs)
  unfolding best_index nth
  best_lem [] i best score = inl (refl, tt)
  best_lem (c ∷ cs) i best score = elim (Bool-cases (ltb score (score_of scores c.name))) [
    | inl e ↦ elim (best_lem cs (i + 1) i (score_of scores c.name)) [
      | inl (b, m) ↦ inr (0, c, rw e (b ∙ omega arith), refl, ground arith, (omega arith, m))
      | inr (k, d, b, at, less, m) ↦
          inr (suc k, d, rw e (b ∙ omega arith), at, ground arith, (omega arith, m))
    ]
    | inr e ↦ elim (best_lem cs (i + 1) best score) [
      | inl (b, m) ↦ inl (rw e b, (ground arith, m))
      | inr (k, d, b, at, less, m) ↦
          inr (suc k, d, rw e (b ∙ omega arith), at, less, (ground arith, m))
    ]
  ]

  -- The best candidate of a list that is not empty.
  best_at :
      (c : BaseIo) (cs : List BaseIo)
      → (d : BaseIo) × (nth (best_index scores (c ∷ cs) 0 0 0) (c ∷ cs) ≡ some d)
        × Most (score_of scores d.name) (c ∷ cs)
  best_at c cs = elim (best_lem (c ∷ cs) 0 0 0) [
    | inl (b, m) ↦
        (c, rw b (unfold nth in refl), Most-up 0 (score_of scores c.name) (c ∷ cs) (omega arith) m)
    | inr (k, d, b, at, less, m) ↦
        let same : ◌≡◌ {A = ℕ} (0 + k) k = omega arith in (d, rw (b, same) at, m)
  ]

role_at :
    (best i k : ℕ) (cs : List BaseIo) (c : BaseIo)
    → nth k cs ≡ some c
    → best ≡ i + k
    → nth k (set_roles best i cs) ≡ some (with_role (codes "primary") c)
unfolding nth set_roles with_role
role_at best i k [] c e h = cc
role_at best i zero (d ∷ cs) c e h =
    let same : (i == best) ≡ true = ground arith in rw same (ground arith)
role_at best i (suc k) (d ∷ cs) c e h = role_at best (i + 1) k cs c e (omega arith)

none_after : (best i : ℕ) (cs : List BaseIo) → best < i → keep is_primary (set_roles best i cs) ≡ []
unfolding set_roles text_eq
none_after best i [] h = refl
none_after best i (c ∷ cs) h =
    let differs : (i == best) ≡ false = ground arith in
    rw differs (none_after best (i + 1) cs (omega arith))

one_primary :
    (best i k : ℕ) (cs : List BaseIo) (c : BaseIo)
    → nth k cs ≡ some c
    → best ≡ i + k
    → length (keep is_primary (set_roles best i cs)) ≡ 1
unfolding nth set_roles text_eq
one_primary best i k [] c e h = cc
one_primary best i zero (d ∷ cs) c e h =
    let same : (i == best) ≡ true = ground arith in
    rw same (ap (λ ks. suc (length ks)) (none_after best (i + 1) cs (omega arith)) ∙ omega arith)
one_primary best i (suc k) (d ∷ cs) c e h =
    let differs : (i == best) ≡ false = ground arith in
    rw differs (one_primary best (i + 1) k cs c e (omega arith))

-- Of candidates that are not none, applyRoles makes exactly one the primary, and it has the highest
-- score of all.
pub apply_roles_lem :
    (scores : List (Text × ℕ)) (c : BaseIo) (cs : List BaseIo)
    → (length (keep is_primary (apply_roles scores (c ∷ cs))) ≡ 1)
      × ((k : ℕ) × (d : BaseIo) × (nth k (c ∷ cs) ≡ some d)
          × (nth k (apply_roles scores (c ∷ cs)) ≡ some (with_role (codes "primary") d))
          × Most scores (score_of scores d.name) (c ∷ cs))
unfolding apply_roles
apply_roles_lem scores c cs =
    let best = best_index scores (c ∷ cs) 0 0 0 in
    let (d, at, m) = best_at scores c cs in
    let from : ◌≡◌ {A = ℕ} best (0 + best) = omega arith in
    (
      one_primary best 0 best (c ∷ cs) d at from,
      (best, d, at, role_at best 0 best (c ∷ cs) d at from, m),
    )
