-- ===== src/Pve/Guests/Order.antt =====
-- The order in which the due agents are asked.
use ithiltir_node.Base.{
  ℕ, ◌≤◌, ◌≡◌, inl, inr, refl, ap, ◌∙◌, Bool, true, false, ◌&&◌, ◌||◌, List, [], ◌∷◌, Text, Time,
  ltb, ◌==◌, keep, All, Result, ok, err, if◌then◌else◌, Bool-cases, is_empty, arith,
}
use ithiltir_node.Pve.Guests.{
  GuestState, GuestTarget, Candidate, is_before, insert_candidate, sort_candidates, candidates,
  candidate_of, current_state,
}

abbrev IsOrdered : List Candidate → Type 0
IsOrdered [] = Unit
IsOrdered (a ∷ bs) = All (λ b. is_before a b ≡ true) bs × IsOrdered bs

-- A candidate of one priority and time.
abbrev has_key : ℕ → Time → Candidate → Bool
has_key p t a = a.priority == p && a.next == t

before_trans :
    (a b c : Candidate) → is_before a b ≡ true → is_before b c ≡ true → is_before a c ≡ true
unfolding is_before
before_trans a b c h k = ground arith

before_total : (a b : Candidate) → is_before a b ≡ false → is_before b a ≡ true
unfolding is_before
before_total a b h = ground arith

before-All :
    (a b : Candidate) (cs : List Candidate)
    → is_before a b ≡ true
    → All (λ c. is_before b c ≡ true) cs
    → All (λ c. is_before a c ≡ true) cs
before-All a b [] h k = tt
before-All a b (c ∷ cs) h k = (before_trans a b c h k.0, before-All a b cs h k.1)

insert-All :
    (b a : Candidate) (cs : List Candidate)
    → is_before b a ≡ true
    → All (λ c. is_before b c ≡ true) cs
    → All (λ c. is_before b c ≡ true) (insert_candidate a cs)
unfolding insert_candidate
insert-All b a [] h k = (h, tt)
insert-All b a (c ∷ cs) h k = elim (Bool-cases (is_before a c)) [
  | inl e ↦ rw e (h, k)
  | inr e ↦ rw e (k.0, insert-All b a cs h k.1)
]

insert-IsOrdered :
    (a : Candidate) (bs : List Candidate) → IsOrdered bs → IsOrdered (insert_candidate a bs)
unfolding insert_candidate
insert-IsOrdered a [] o = (tt, tt)
insert-IsOrdered a (b ∷ bs) o = elim (Bool-cases (is_before a b)) [
  | inl e ↦ rw e ((e, before-All a b bs e o.0), o)
  | inr e ↦ rw e (insert-All b a bs (before_total a b e) o.0, insert-IsOrdered a bs o.1)
]

apart :
    (p : ℕ) (t : Time) (a b : Candidate) (cs : List Candidate)
    → is_before a b ≡ false
    → keep (has_key p t) (b ∷ a ∷ cs) ≡ keep (has_key p t) (a ∷ b ∷ cs)
unfolding is_before
apart p t a b cs e = ground arith

keep_cons :
    (p : ℕ) (t : Time) (c : Candidate) (cs ds : List Candidate)
    → keep (has_key p t) cs ≡ keep (has_key p t) ds
    → keep (has_key p t) (c ∷ cs) ≡ keep (has_key p t) (c ∷ ds)
keep_cons p t c cs ds h = ap (λ ks. if has_key p t c then c ∷ ks else ks) h

keep-insert :
    (p : ℕ) (t : Time) (a : Candidate) (bs : List Candidate)
    → keep (has_key p t) (insert_candidate a bs) ≡ keep (has_key p t) (a ∷ bs)
unfolding insert_candidate
keep-insert p t a [] = refl
keep-insert p t a (b ∷ bs) = elim (Bool-cases (is_before a b)) [
  | inl e ↦ rw e refl
  | inr e ↦
      rw e (
        keep_cons p t b (insert_candidate a bs) (a ∷ bs) (keep-insert p t a bs)
        ∙ apart p t a b bs e)
]

keep-sort :
    (p : ℕ) (t : Time) (cs : List Candidate)
    → keep (has_key p t) (sort_candidates cs) ≡ keep (has_key p t) cs
unfolding sort_candidates
keep-sort p t [] = refl
keep-sort p t (c ∷ cs) =
    keep-insert p t c (sort_candidates cs)
    ∙ keep_cons p t c (sort_candidates cs) cs (keep-sort p t cs)

sort-IsOrdered : (cs : List Candidate) → IsOrdered (sort_candidates cs)
unfolding sort_candidates
sort-IsOrdered [] = tt
sort-IsOrdered (c ∷ cs) = insert-IsOrdered c (sort_candidates cs) (sort-IsOrdered cs)

candidate_due :
    (now : Time) (target : GuestTarget) (s : GuestState) (rest : List Candidate)
    → All (λ c. c.next ≤ now) rest
    → All (λ c. c.next ≤ now) (candidate_of now target s rest)
unfolding candidate_of
candidate_due now target s rest h = elim (Bool-cases (is_empty target.agent || ltb now s.next)) [
  | inl e ↦ rw e h
  | inr e ↦ rw e (ground arith, h)
]

All-due :
    (now : Time) (host : Text) (targets : List (GuestTarget × Result Text GuestState))
    → All (λ c. c.next ≤ now) (candidates now host targets)
unfolding candidates
All-due now host [] = tt
All-due now host ((target, err e) ∷ targets) = All-due now host targets
All-due now host ((target, ok s) ∷ targets) =
    candidate_due now target (current_state host target s) (candidates now host targets)
      (All-due now host targets)

-- The agents that are asked in a round are all due; they are asked by priority, and of one priority
-- the longest due first; those of one priority and time keep the order of the inventory, and none
-- is lost or asked twice.
candidates-sort :
    (now : Time) (host : Text) (targets : List (GuestTarget × Result Text GuestState))
    → All (λ c. c.next ≤ now) (candidates now host targets)
      × IsOrdered (sort_candidates (candidates now host targets))
      × ((p : ℕ) (t : Time)
          → keep (has_key p t) (sort_candidates (candidates now host targets))
            ≡ keep (has_key p t) (candidates now host targets))
candidates-sort now host targets = (
  All-due now host targets,
  sort-IsOrdered (candidates now host targets),
  λ p t. keep-sort p t (candidates now host targets),
)
