-- ===== src/Push/Session/Pending.antt =====
-- The pending queries of a session as a list of ids.
use ithiltir_node.Base.{
  ℕ, suc, ◌+◌, ◌≡◌, inl, inr, refl, sym, ◌∙◌, ap, subst, Bool, true, false, ◌||◌, none, List, [],
  ◌∷◌, exists_in, length, Text, text_eq, text_eq_iff, if◌then◌else◌, Bool-cases, arith,
}
use ithiltir_node.Push.Session.{Job, find_job, delete_job, stop_job, leave_worker}

abbrev pub Jobs : Type 0
Jobs = List (Text × Job)

abbrev pub ids : List (Text × Job) → List Text
ids [] = []
ids ((k, j) ∷ jobs) = k ∷ ids jobs

-- How often a text is in a list.
abbrev pub count : Text → List Text → ℕ
count x [] = 0
count x (k ∷ ks) = (if text_eq k x then 1 else 0) + count x ks

abbrev pub has_job : Text → List (Text × Job) → Bool
has_job id = exists_in (λ e. text_eq e.0 id)

abbrev pub Distinct : List (Text × Job) → Type 0
Distinct [] = Unit
Distinct ((k, j) ∷ jobs) = (has_job k jobs ≡ false) × Distinct jobs

text_eq_sym : (a b : Text) → text_eq a b ≡ true → text_eq b a ≡ true
text_eq_sym a b h = (text_eq_iff b a).1 (sym ((text_eq_iff a b).0 h))

delete_missing : (id : Text) (jobs : Jobs) → has_job id jobs ≡ false → delete_job id jobs ≡ jobs
unfolding delete_job
delete_missing id [] h = refl
delete_missing id ((k, j) ∷ jobs) h = ground (arith, delete_missing id jobs)

has_job-delete :
    (x id : Text) (jobs : Jobs) → has_job x jobs ≡ false → has_job x (delete_job id jobs) ≡ false
unfolding delete_job
has_job-delete x id [] h = refl
has_job-delete x id ((k, j) ∷ jobs) h = ground (arith, has_job-delete x id jobs)

pub Distinct-delete : (id : Text) (jobs : Jobs) → Distinct jobs → Distinct (delete_job id jobs)
unfolding delete_job
Distinct-delete id [] d = tt
Distinct-delete id ((k, j) ∷ jobs) d =
    ground (arith, Distinct-delete id jobs d.1, has_job-delete k id jobs d.0)

-- Deleting a pending id takes it out once, from the ids and from the workers alike.
pub delete_once :
    (id : Text) (jobs : Jobs)
    → Distinct jobs
    → has_job id jobs ≡ true
    → (ids (delete_job id jobs) ≡ leave_worker id (ids jobs))
      × (length (delete_job id jobs) + 1 ≡ length jobs)
      × ((x : Text) → count x (ids jobs) ≡ count x (id ∷ []) + count x (ids (delete_job id jobs)))
unfolding delete_job leave_worker
delete_once id [] d h = ground arith
delete_once id ((k, j) ∷ jobs) d h = elim (Bool-cases (text_eq k id)) [
  | inl e ↦
      let same : k ≡ id = (text_eq_iff k id).0 e in
      let gone = delete_missing id jobs (subst (λ x. has_job x jobs ≡ false) same d.0) in
      rw (e, gone) (refl, omega arith, λ x. rw same (omega arith))
  | inr e ↦
      let (a, b, c) = delete_once id jobs d.1 (rw e at h) in
      rw e (ap (λ r. k ∷ r) a, omega (arith, b), λ x. omega (arith, c x))
]

pub find_has : (id : Text) (jobs : Jobs) → find_job id jobs ≡ none → has_job id jobs ≡ false
unfolding find_job
find_has id [] h = refl
find_has id ((k, j) ∷ jobs) h = ground (arith, find_has id jobs)

pub stop_ids :
    (id : Text) (jobs : Jobs)
    → (ids (stop_job id jobs) ≡ ids jobs) × (length (stop_job id jobs) ≡ length jobs)
unfolding stop_job
stop_ids id [] = (refl, refl)
stop_ids id ((k, j) ∷ jobs) = let (a, b) = stop_ids id jobs in (ap (λ r. k ∷ r) a, ap suc b)

has_job-stop : (x id : Text) (jobs : Jobs) → has_job x (stop_job id jobs) ≡ has_job x jobs
unfolding stop_job
has_job-stop x id [] = refl
has_job-stop x id ((k, j) ∷ jobs) = ap (λ b. text_eq k x || b) (has_job-stop x id jobs)

pub Distinct-stop : (id : Text) (jobs : Jobs) → Distinct jobs → Distinct (stop_job id jobs)
unfolding stop_job
Distinct-stop id [] d = tt
Distinct-stop id ((k, j) ∷ jobs) d = (has_job-stop k id jobs ∙ d.0, Distinct-stop id jobs d.1)

-- A pending id is one of the ids.
pub has_job-ids :
    (id : Text) (jobs : Jobs) → has_job id jobs ≡ exists_in (λ k. text_eq k id) (ids jobs)
has_job-ids id [] = refl
has_job-ids id ((k, j) ∷ jobs) = ap (λ b. text_eq k id || b) (has_job-ids id jobs)
