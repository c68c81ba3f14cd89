-- ===== src/Pve/History/Entries.antt =====
-- Counting the entries of the history cache: the bytes of the completed calls, and the running ones.
use ithiltir_node.Base.{
  ℕ, ◌+◌, ◌≡◌, ◌⊎◌, inl, inr, refl, subst, false, none, some, List, [], ◌∷◌, if◌then◌else◌, length,
  All, arith, Bool-cases,
}
use ithiltir_node.Pve.Query.{HistoryQuery, query_eq, query_eq_iff}
use ithiltir_node.Pve.History.{Call, is_done, find_call, delete_call}

abbrev pub Calls : Type 0
Calls = List (HistoryQuery × Call)

-- The bytes that a call accounts for.
abbrev weight : Call → ℕ
weight c = if is_done c then length c.raw else 0

abbrev pub total : List (HistoryQuery × Call) → ℕ
total [] = 0
total ((k, c) ∷ calls) = weight c + total calls

abbrev pub running : List (HistoryQuery × Call) → ℕ
running [] = 0
running ((k, c) ∷ calls) = (if is_done c then 0 else 1) + running calls

abbrev pub Absent : HistoryQuery → List (HistoryQuery × Call) → Type 0
Absent q = All (λ e. query_eq e.0 q ≡ false)

abbrev pub Distinct : List (HistoryQuery × Call) → Type 0
Distinct [] = Unit
Distinct ((k, c) ∷ calls) = Absent k calls × Distinct calls

-- The entry is in the list.
abbrev pub Holds : HistoryQuery → Call → List (HistoryQuery × Call) → Type 0
Holds q c [] = ⊥
Holds q c ((k, d) ∷ calls) = ((k ≡ q) × (d ≡ c)) ⊎ Holds q c calls

delete_Absent : (q : HistoryQuery) (calls : Calls) → Absent q calls → delete_call q calls ≡ calls
unfolding delete_call
delete_Absent q [] a = refl
delete_Absent q ((k, c) ∷ calls) a = ground (arith, delete_Absent q calls a.1)

pub Absent-delete :
    (p q : HistoryQuery) (calls : Calls) → Absent p calls → Absent p (delete_call q calls)
unfolding delete_call
Absent-delete p q [] a = tt
Absent-delete p q ((k, c) ∷ calls) a = ground (arith, Absent-delete p q calls a.1)

pub Distinct-delete :
    (q : HistoryQuery) (calls : Calls) → Distinct calls → Distinct (delete_call q calls)
unfolding delete_call
Distinct-delete q [] d = tt
Distinct-delete q ((k, c) ∷ calls) d =
    ground (arith, Distinct-delete q calls d.1, Absent-delete k q calls d.0)

Holds-Absent : (q : HistoryQuery) (c : Call) (calls : Calls) → Absent q calls → ¬ Holds q c calls
Holds-Absent q c [] a h = h
Holds-Absent q c ((k, d) ∷ calls) a (inl h) = ground (arith, query_eq_iff k q)
Holds-Absent q c ((k, d) ∷ calls) a (inr h) = Holds-Absent q c calls a.1 h

-- Deleting an entry takes away its share of every count.
pub delete_counts :
    (q : HistoryQuery) (c : Call) (calls : Calls)
    → Distinct calls
    → Holds q c calls
    → (total (delete_call q calls) + weight c ≡ total calls)
      × (running (delete_call q calls) + (if is_done c then 0 else 1) ≡ running calls)
      × (length (delete_call q calls) + 1 ≡ length calls)
unfolding delete_call
delete_counts q c [] d h = absurd h
delete_counts q c ((k, e) ∷ calls) d (inl (same, same_call)) =
    let hit = (query_eq_iff k q).1 same in
    let rest : Absent q calls = subst (λ k. Absent k calls) same d.0 in
    rw (hit, delete_Absent q calls rest, same_call) (omega arith, omega arith, omega arith)
delete_counts q c ((k, e) ∷ calls) d (inr h) = elim (Bool-cases (query_eq k q)) [
  | inl hit ↦
      absurd (Holds-Absent q c calls (subst (λ k. Absent k calls) ((query_eq_iff k q).0 hit) d.0) h)
  | inr miss ↦
      let ih = delete_counts q c calls d.1 h in rw miss (omega arith, omega arith, omega arith)
]

find_call-Holds :
    (q : HistoryQuery) (c : Call) (calls : Calls) → find_call q calls ≡ some c → Holds q c calls
unfolding find_call
find_call-Holds q c [] h = cc
find_call-Holds q c ((k, d) ∷ calls) h = elim (Bool-cases (query_eq k q)) [
  | inl hit ↦ inl ((query_eq_iff k q).0 hit, ground arith)
  | inr miss ↦ inr (find_call-Holds q c calls (ground arith))
]

pub find_call-Absent :
    (q : HistoryQuery) (calls : Calls) → find_call q calls ≡ none → Absent q calls
unfolding find_call
find_call-Absent q [] h = tt
find_call-Absent q ((k, d) ∷ calls) h = ground (arith, find_call-Absent q calls)
