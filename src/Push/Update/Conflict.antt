-- ===== src/Push/Update/Conflict.antt =====
-- What the plan of a round of offers says of them.
use ithiltir_node.Base.{
  ◌≡◌, ◌≢◌, ◌↔◌, ◌⊎◌, inl, inr, refl, sym, ap, subst, Bool, true, false, not, none, some, some_inj,
  Text, text_eq_iff, trim_space, int_eq_iff, is_empty, is_some, List, [], ◌∷◌, exists_in, arith,
  Bool-cases,
}
use ithiltir_node.Push.Update.{Manifest, no_plan, same_node_version, same_update_manifest}
use ithiltir_node.Push.Update.Agreement.{Offer, add_all, others, offers_current, disagree, plan_lem}

-- Some target offers the manifest.
pub Offers : Manifest → List Offer → Type 0
Offers m [] = ⊥
Offers m ((o, secret) ∷ os) = (o ≡ some m) ⊎ Offers m os

-- The manifest is of the version that runs, up to blanks around it.
pub IsCurrent : Text → Manifest → Type 0
IsCurrent current m = (trim_space m.version ≢ []) × (trim_space m.version ≡ trim_space current)

-- Two manifests are one update; the secrets of their targets may differ.
record IsSame (a b : Manifest) : Type 0 where
  pub same_id : a.id ≡ b.id
  pub same_version : a.version ≡ b.version
  pub same_url : a.url ≡ b.url
  pub same_sha256 : a.sha256 ≡ b.sha256
  pub same_size : a.size ≡ b.size

-- Some target offers a manifest of another version.
pub OffersOther : Text → List Offer → Type 0
OffersOther current os = (m : Manifest) × Offers m os × ¬ IsCurrent current m

-- Two targets offer different updates to other versions.
pub Conflict : Text → List Offer → Type 0
Conflict current os =
    (a : Manifest) × (b : Manifest) × (Offers a os × ¬ IsCurrent current a)
    × (Offers b os × ¬ IsCurrent current b)
    × ¬ IsSame a b

IsSame-iff : (a b : Manifest) → (same_update_manifest a b ≡ true) ↔ IsSame a b
unfolding same_update_manifest
IsSame-iff a b = (
  λ h. record {
    same_id = (text_eq_iff a.id b.id).0 (ground arith);
    same_version = (text_eq_iff a.version b.version).0 (ground arith);
    same_url = (text_eq_iff a.url b.url).0 (ground arith);
    same_sha256 = (text_eq_iff a.sha256 b.sha256).0 (ground arith);
    same_size = (int_eq_iff a.size b.size).0 (ground arith);
  },
  λ s.
      let i = (text_eq_iff a.id b.id).1 s.same_id in
      let v = (text_eq_iff a.version b.version).1 s.same_version in
      let u = (text_eq_iff a.url b.url).1 s.same_url in
      let h = (text_eq_iff a.sha256 b.sha256).1 s.same_sha256 in
      let n = (int_eq_iff a.size b.size).1 s.same_size in rw (i, v, u, h, n) refl,
)

empty_iff : (t : Text) → (is_empty t ≡ true) ↔ (t ≡ [])
empty_iff [] = (λ h. refl, λ h. refl)
empty_iff (c ∷ t) = (λ h. cc h, λ h. ap is_empty h)

IsCurrent-iff :
    (current : Text) (m : Manifest)
    → (same_node_version m.version current ≡ true) ↔ IsCurrent current m
unfolding same_node_version IsCurrent
IsCurrent-iff current m =
    let u = trim_space m.version in
    let (to, from) = empty_iff u in
    let (same, eq) = text_eq_iff u (trim_space current) in
    (
      λ h. (λ e. ground (arith, from e), same (ground arith)),
      λ h. elim (Bool-cases (is_empty u)) [
        | inl e ↦ elim (h.0 (to e)) [ ]
        | inr e ↦ rw (e, eq h.1) refl
      ],
    )

-- The manifest is in the list.
Among : Manifest → List Manifest → Type 0
Among a [] = ⊥
Among a (m ∷ ms) = (a ≡ m) ⊎ Among a ms

exists_to :
    (p : Manifest → Bool) (ms : List Manifest)
    → exists_in p ms ≡ true
    → (a : Manifest) × Among a ms × (p a ≡ true)
unfolding Among
exists_to p [] h = cc h
exists_to p (m ∷ ms) h = elim (Bool-cases (p m)) [
  | inl e ↦ (m, inl refl, e)
  | inr e ↦ let (a, i, q) = exists_to p ms (ground arith) in (a, inr i, q)
]

exists_from :
    (p : Manifest → Bool) (ms : List Manifest) (a : Manifest)
    → Among a ms
    → p a ≡ true
    → exists_in p ms ≡ true
unfolding Among
exists_from p [] a i q = elim i [ ]
exists_from p (m ∷ ms) a (inl e) q = let q' = subst (λ x. p x ≡ true) e q in ground (arith, q')
exists_from p (m ∷ ms) a (inr i) q = let r = exists_from p ms a i q in ground (arith, r)

Among-Offers :
    (current : Text) (a m : Manifest) (os : List Offer)
    → (Among a (others current os) → Offers a os × ¬ IsCurrent current a)
    → same_node_version m.version current ≡ false
    → Among a (m ∷ others current os)
    → ((some m ≡ some a) ⊎ Offers a os) × ¬ IsCurrent current a
unfolding Among
Among-Offers current a m os rest e (inl same) = (
  inl (ap some (sym same)),
  λ c. let t = (IsCurrent-iff current m).1 (subst (IsCurrent current) same c) in cc (t, e),
)
Among-Offers current a m os rest e (inr i) = let (o, n) = rest i in (inr o, n)

others_to :
    (current : Text) (a : Manifest) (os : List Offer)
    → Among a (others current os)
    → Offers a os × ¬ IsCurrent current a
unfolding others Among Offers
others_to current a [] i = elim i [ ]
others_to current a ((none, s) ∷ os) i = let (o, n) = others_to current a os i in (inr o, n)
others_to current a ((some m, s) ∷ os) i = elim (Bool-cases (same_node_version m.version current)) [
  | inl e ↦ let (o, n) = others_to current a os (rw e at i) in (inr o, n)
  | inr e ↦ Among-Offers current a m os (others_to current a os) e (rw e at i)
]

others_from :
    (current : Text) (a : Manifest) (os : List Offer)
    → Offers a os
    → ¬ IsCurrent current a
    → Among a (others current os)
unfolding others Among Offers
others_from current a [] o n = elim o [ ]
others_from current a ((none, s) ∷ os) (inl e) n = cc e
others_from current a ((none, s) ∷ os) (inr o) n = others_from current a os o n
others_from current a ((some m, s) ∷ os) (inl e) n =
    elim (Bool-cases (same_node_version m.version current)) [
      | inl c ↦
          elim (n (subst (IsCurrent current) (some_inj m a e) ((IsCurrent-iff current m).0 c))) [ ]
      | inr c ↦ rw c (inl (sym (some_inj m a e)))
    ]
others_from current a ((some m, s) ∷ os) (inr o) n =
    elim (Bool-cases (same_node_version m.version current)) [
      | inl c ↦ rw c (others_from current a os o n)
      | inr c ↦ rw c (inr (others_from current a os o n))
    ]

Conflict-iff :
    (current : Text) (os : List Offer) → (disagree (others current os) ≡ true) ↔ Conflict current os
unfolding disagree Conflict
Conflict-iff current os = (
  λ h.
      let (a, i, q) = exists_to _ (others current os) h in
      let (b, j, r) = exists_to _ (others current os) q in
      (
        a,
        b,
        others_to current a os i,
        others_to current b os j,
        λ s. let t = (IsSame-iff a b).1 s in ground (arith, t),
      ),
  λ h.
      let (a, b, (i, i'), (j, j'), n) = h in
      exists_from _ (others current os) a (others_from current a os i i')
        (exists_from _ (others current os) b (others_from current b os j j') (unlike a b n)),
)
  where
    unlike : (a b : Manifest) → ¬ IsSame a b → not (same_update_manifest a b) ≡ true
    unlike a b n = elim (Bool-cases (same_update_manifest a b)) [
      | inl e ↦ elim (n ((IsSame-iff a b).0 e)) [ ]
      | inr e ↦ rw e refl
    ]

IsCurrent-to :
    (current : Text) (os : List Offer)
    → offers_current current os ≡ true
    → (m : Manifest) × Offers m os × IsCurrent current m
unfolding offers_current Offers
IsCurrent-to current [] h = cc h
IsCurrent-to current ((none, s) ∷ os) h = let (m, o, c) = IsCurrent-to current os h in (m, inr o, c)
IsCurrent-to current ((some n, s) ∷ os) h =
    elim (Bool-cases (same_node_version n.version current)) [
      | inl e ↦ (n, inl refl, (IsCurrent-iff current n).0 e)
      | inr e ↦ let (m, o, c) = IsCurrent-to current os (ground arith) in (m, inr o, c)
    ]

current_from :
    (current : Text) (os : List Offer) (m : Manifest)
    → Offers m os
    → IsCurrent current m
    → offers_current current os ≡ true
unfolding offers_current Offers
current_from current [] m o c = elim o [ ]
current_from current ((none, s) ∷ os) m (inl e) c = cc e
current_from current ((none, s) ∷ os) m (inr o) c = current_from current os m o c
current_from current ((some n, s) ∷ os) m (inl e) c =
    let t = (IsCurrent-iff current n).1 (subst (IsCurrent current) (sym (some_inj n m e)) c) in
    ground (arith, t)
current_from current ((some n, s) ∷ os) m (inr o) c =
    let t = current_from current os m o c in ground (arith, t)

nonempty_iff : (ms : List Manifest) → (not (is_empty ms) ≡ true) ↔ ((a : Manifest) × Among a ms)
unfolding Among
nonempty_iff [] = (λ h. cc h, λ h. elim h.1 [ ])
nonempty_iff (m ∷ ms) = (λ h. (m, inl refl), λ h. refl)

other_iff :
    (current : Text) (os : List Offer)
    → (not (is_empty (others current os)) ≡ true) ↔ OffersOther current os
unfolding OffersOther
other_iff current os = (
  λ h.
      let (a, i) = (nonempty_iff (others current os)).0 h in
      let (o, n) = others_to current a os i in (a, o, n),
  λ h. let (a, o, n) = h in (nonempty_iff (others current os)).1 (a, others_from current a os o n),
)

-- The plan of a round: it has a conflict exactly when two targets offer manifests of versions other
-- than the current one that differ in id, version, URL, SHA-256 or size; it notes the current
-- version exactly when some target offers it; and it has a manifest exactly when some target offers
-- another version.
pub plan_iff :
    (current : Text) (os : List Offer)
    → let p = add_all current os no_plan in
      ((p.conflict ≡ true) ↔ Conflict current os)
      × ((p.skipped_current ≡ true) ↔ ((m : Manifest) × Offers m os × IsCurrent current m))
      × ((is_some p.manifest ≡ true) ↔ OffersOther current os)
plan_iff current os =
    let (c, s, m) = plan_lem current os in
    rw (c, s, m)
      (
        Conflict-iff current os,
        (IsCurrent-to current os, λ h. current_from current os h.0 h.1 h.2),
        other_iff current os,
      )
