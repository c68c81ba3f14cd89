-- ===== src/Collect/Sampler/Storages/Sorted.antt =====
-- The order of the storages.
use ithiltir_node.Base.{
  ◌<◌, ◌≡◌, ◌⊎◌, refl, inl, inr, sym, true, false, Text, text_eq, text_eq_iff, text_eq_refl,
  text_less, text_less_irrefl, text_less_trans, text_less_total, ◌==◌, Bool-cases, arith,
}
use ithiltir_node.Collect.Sampler.Storages.{kind_rank, comes_before}

-- First by rank, then by kind, then by name.
Precedes : Text × Text → Text × Text → Type 0
Precedes (k, n) (j, m) =
    (kind_rank k < kind_rank j)
    ⊎ ((kind_rank k ≡ kind_rank j) × (text_less k j ≡ true))
    ⊎ ((k ≡ j) × (text_less n m ≡ true))

before_Precedes : (a b : Text × Text) → comes_before a b ≡ true → Precedes a b
unfolding comes_before Precedes
before_Precedes (k, n) (j, m) h = elim (Bool-cases (kind_rank k == kind_rank j)) [
  | inr e ↦ let h1 = rw e at h in inl (ground arith)
  | inl e ↦ elim (Bool-cases (text_eq k j)) [
    | inl f ↦ inr (inr ((text_eq_iff k j).0 f, rw (e, f) at h))
    | inr f ↦ inr (inl (ground arith, rw (e, f) at h))
  ]
]

Precedes-before : (a b : Text × Text) → Precedes a b → comes_before a b ≡ true
unfolding comes_before Precedes
Precedes-before (k, n) (j, m) (inl h) =
    let e : (kind_rank k == kind_rank j) ≡ false = ground arith in rw e (ground arith)
Precedes-before (k, n) (j, m) (inr (inl (r, l))) =
    let e : (kind_rank k == kind_rank j) ≡ true = ground arith in
    elim (Bool-cases (text_eq k j)) [
      | inl f ↦ let same = (text_eq_iff k j).0 f in cc (rw same at l, text_less_irrefl j)
      | inr f ↦ rw (e, f) l
    ]
Precedes-before (k, n) (j, m) (inr (inr (s, l))) =
    let e : (kind_rank k == kind_rank j) ≡ true = rw s (ground arith) in
    let f = (text_eq_iff k j).1 s in rw (e, f) l

Precedes-trans : (a b c : Text × Text) → Precedes a b → Precedes b c → Precedes a c
unfolding Precedes
Precedes-trans (k, n) (j, m) (i, l) (inl p) (inl q) = inl (omega arith)
Precedes-trans (k, n) (j, m) (i, l) (inl p) (inr (inl q)) = inl (omega (arith, q.0))
Precedes-trans (k, n) (j, m) (i, l) (inl p) (inr (inr q)) = inl (rw⁻¹ q.0 p)
Precedes-trans (k, n) (j, m) (i, l) (inr (inl p)) (inl q) = inl (omega (arith, p.0))
Precedes-trans (k, n) (j, m) (i, l) (inr (inl p)) (inr (inl q)) =
    inr (inl (omega (arith, p.0, q.0), text_less_trans k j i p.1 q.1))
Precedes-trans (k, n) (j, m) (i, l) (inr (inl p)) (inr (inr q)) = inr (inl (rw⁻¹ q.0 p))
Precedes-trans (k, n) (j, m) (i, l) (inr (inr p)) (inl q) = inl (rw p.0 q)
Precedes-trans (k, n) (j, m) (i, l) (inr (inr p)) (inr (inl q)) = inr (inl (rw p.0 q))
Precedes-trans (k, n) (j, m) (i, l) (inr (inr p)) (inr (inr q)) =
    inr (inr (rw (p.0, q.0) refl, text_less_trans n m l p.1 q.1))

before_irrefl : (a : Text × Text) → comes_before a a ≡ false
unfolding comes_before
before_irrefl (k, n) =
    let e : (kind_rank k == kind_rank k) ≡ true = ground arith in
    rw (e, text_eq_refl k) (text_less_irrefl n)

-- Of equal rank, not before each other either way.
same_rank :
    (k n j m : Text)
    → kind_rank k ≡ kind_rank j
    → comes_before (k, n) (j, m) ≡ false
    → comes_before (j, m) (k, n) ≡ false
    → (k ≡ j) × (n ≡ m)
unfolding comes_before
same_rank k n j m r p q =
    let e : (kind_rank k == kind_rank j) ≡ true = ground arith in
    let d : (kind_rank j == kind_rank k) ≡ true = ground arith in
    elim (Bool-cases (text_eq k j)) [
      | inl f ↦
          let same = (text_eq_iff k j).0 f in
          let f2 = (text_eq_iff j k).1 (sym same) in
          (same, text_less_total n m (rw (e, f) at p) (rw (d, f2) at q))
      | inr f ↦ elim (Bool-cases (text_eq j k)) [
        | inl g ↦ cc (f, (text_eq_iff k j).1 (sym ((text_eq_iff j k).0 g)))
        | inr g ↦
            let same = text_less_total k j (rw (e, f) at p) (rw (d, g) at q) in
            cc (f, (text_eq_iff k j).1 same)
      ]
    ]

rank_tie :
    (a b : Text × Text)
    → comes_before a b ≡ false
    → comes_before b a ≡ false
    → kind_rank a.0 ≡ kind_rank b.0
unfolding comes_before
rank_tie (k, n) (j, m) p q = elim (Bool-cases (kind_rank k == kind_rank j)) [
  | inl e ↦ ground arith
  | inr e ↦
      let d : (kind_rank j == kind_rank k) ≡ false = ground arith in
      let h1 = rw e at p in let h2 = rw d at q in absurd (ground arith)
]

-- The order by which collectSlow sorts the storages is a strict total order of their kinds and
-- names, as sort.Slice needs: none comes before itself, it is transitive, and of two that come
-- before each other neither way the kind and the name are the same.
comes_before-IsStrictOrder :
    (a b c : Text × Text)
    → (comes_before a a ≡ false)
      × (comes_before a b ≡ true → comes_before b c ≡ true → comes_before a c ≡ true)
      × (comes_before a b ≡ false → comes_before b a ≡ false → a ≡ b)
comes_before-IsStrictOrder (k, n) (j, m) c = (
  before_irrefl (k, n),
  λ p q.
      Precedes-before (k, n) c
        (Precedes-trans (k, n) (j, m) c (before_Precedes (k, n) (j, m) p)
          (before_Precedes (j, m) c q)),
  λ p q. let (s, t) = same_rank k n j m (rank_tie (k, n) (j, m) p q) p q in rw (s, t) refl,
)
