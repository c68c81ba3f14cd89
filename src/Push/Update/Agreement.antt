-- ===== src/Push/Update/Agreement.antt =====
-- A plan has no conflict exactly when all the offers of other versions agree.
use ithiltir_node.Base.{
  ◌≡◌, inl, inr, refl, subst, sym, ◌∙◌, ap, Bool, true, false, ◌&&◌, ◌||◌, not, Option, none, some,
  Text, text_eq_iff, trim_space, int_eq_iff, if◌then◌else◌, is_empty, is_some, List, [], ◌∷◌,
  exists_in, arith, Bool-cases,
}
use ithiltir_node.Push.Update.{
  Manifest, Plan, no_plan, same_node_version, same_update_manifest, add,
}

-- What one target's reply offers, with the key of that target.
abbrev pub Offer : Type 0
Offer = Option Manifest × Text

unfoldable pub add_all : Text → List Offer → Plan → Plan
add_all current [] p = p
add_all current ((m, secret) ∷ os) p = add_all current os (add current m secret p)

-- The offered manifests of another version than the current one.
unfoldable pub others : Text → List Offer → List Manifest
others current [] = []
others current ((none, s) ∷ os) = others current os
others current ((some m, s) ∷ os) =
    if same_node_version m.version current then others current os else m ∷ others current os

-- Some target offers the current version.
unfoldable pub offers_current : Text → List Offer → Bool
offers_current current [] = false
offers_current current ((none, s) ∷ os) = offers_current current os
offers_current current ((some m, s) ∷ os) =
    same_node_version m.version current || offers_current current os

-- Two of the manifests are different updates.
unfoldable pub disagree : List Manifest → Bool
disagree ms = exists_in (λ a. exists_in (λ b. not (same_update_manifest a b)) ms) ms

same_refl : (a : Manifest) → same_update_manifest a a ≡ true
unfolding same_update_manifest
same_refl a = ground (
  arith,
  text_eq_iff a.id a.id,
  text_eq_iff a.version a.version,
  text_eq_iff a.url a.url,
  text_eq_iff a.sha256 a.sha256,
  int_eq_iff a.size a.size,
)

-- Agreeing with one manifest is agreeing with each other.
same_join :
    (a b c : Manifest)
    → same_update_manifest a b ≡ true
    → same_update_manifest a c ≡ true
    → same_update_manifest b c ≡ true
unfolding same_update_manifest
same_join a b c p q = ground (
  arith,
  text_eq_iff a.id b.id,
  text_eq_iff a.id c.id,
  text_eq_iff b.id c.id,
  text_eq_iff a.version b.version,
  text_eq_iff a.version c.version,
  text_eq_iff b.version c.version,
  text_eq_iff a.url b.url,
  text_eq_iff a.url c.url,
  text_eq_iff b.url c.url,
  text_eq_iff a.sha256 b.sha256,
  text_eq_iff a.sha256 c.sha256,
  text_eq_iff b.sha256 c.sha256,
  int_eq_iff a.size b.size,
  int_eq_iff a.size c.size,
  int_eq_iff b.size c.size,
)

-- Some manifest is another update than `a`.
abbrev differs : Manifest → List Manifest → Bool
differs a = exists_in (λ b. not (same_update_manifest a b))

add-none : (current s : Text) (p : Plan) → add current none s p ≡ p
unfolding add
add-none current s p = refl

-- One more offer after the choice of `a`.
add_chosen :
    (current : Text) (m : Manifest) (s : Text) (p : Plan) (a : Manifest)
    → p.manifest ≡ some a
    → let q = add current (some m) s p in
      (q.manifest ≡ some a)
      × (q.conflict ≡ (
          p.conflict
          || (not (same_node_version m.version current) && not (same_update_manifest a m))))
      × (q.skipped_current ≡ (p.skipped_current || same_node_version m.version current))
unfolding add
add_chosen current m s p a h = ground arith

-- After the choice of `a` the plan records whether another update comes.
add_all_chosen :
    (current : Text) (os : List Offer) (p : Plan) (a : Manifest)
    → p.manifest ≡ some a
    → let q = add_all current os p in
      (q.manifest ≡ some a)
      × (q.conflict ≡ (p.conflict || differs a (others current os)))
      × (q.skipped_current ≡ (p.skipped_current || offers_current current os))
unfolding add_all others offers_current add
add_all_chosen current [] p a h = (h, ground arith, ground arith)
add_all_chosen current ((none, s) ∷ os) p a h = add_all_chosen current os p a h
add_all_chosen current ((some m, s) ∷ os) p a h =
    let (c, d, e) = add_chosen current m s p a h in
    let (c', d', e') = add_all_chosen current os (add current (some m) s p) a c in
    (c', ground arith, ground arith)

-- One more offer before any choice.
add_first :
    (current : Text) (m : Manifest) (s : Text) (p : Plan)
    → p.manifest ≡ none
    → add current (some m) s p ≡ (
        if same_node_version m.version current
        then record p { skipped_current = true }
        else record p { manifest = some (record m { secret = trim_space s }) })
unfolding add
add_first current m s p h = ground arith

-- The secret plays no part in the comparison.
differs_secret :
    (m : Manifest) (s : Text) (ms : List Manifest)
    → differs (record m { secret = s }) ms ≡ differs m ms
unfolding same_update_manifest
differs_secret m s [] = refl
differs_secret m s (b ∷ ms) = ground (arith, differs_secret m s ms)

-- What a plan records, by the first manifest of another version.
abbrev Outcome : Plan → Plan → List Manifest → Bool → Type 0
Outcome p q [] current =
    (q.manifest ≡ none)
    × (q.conflict ≡ p.conflict)
    × (q.skipped_current ≡ (p.skipped_current || current))
Outcome p q (m ∷ ms) current =
    ((s : Text) × (q.manifest ≡ some (record m { secret = s })))
    × (q.conflict ≡ (p.conflict || differs m ms))
    × (q.skipped_current ≡ (p.skipped_current || current))

Outcome-skip :
    (p q : Plan) (ms : List Manifest) (current : Bool)
    → Outcome (record p { skipped_current = true }) q ms current
    → Outcome p q ms true
Outcome-skip p q [] current h = ground arith
Outcome-skip p q (m ∷ ms) current h = (h.0, h.1, ground arith)

add_all_lem :
    (current : Text) (os : List Offer) (p : Plan)
    → p.manifest ≡ none
    → Outcome p (add_all current os p) (others current os) (offers_current current os)
unfolding add_all others offers_current
add_all_lem current [] p h = (h, refl, ground arith)
add_all_lem current ((none, s) ∷ os) p h =
    subst (λ q. Outcome p (add_all current os q) (others current os) (offers_current current os))
      (sym (add-none current s p)) (add_all_lem current os p h)
add_all_lem current ((some m, s) ∷ os) p h =
    elim (Bool-cases (same_node_version m.version current)) [
      | inl same ↦
          rw (add_first current m s p h, same)
            (Outcome-skip p _ (others current os) (offers_current current os)
              (add_all_lem current os (record p { skipped_current = true }) h))
      | inr other ↦
          rw (add_first current m s p h, other)
            (let (c, d, e) =
                add_all_chosen current os
                  (record p { manifest = some (record m { secret = trim_space s }) })
                  (record m { secret = trim_space s }) refl in
              (
                (trim_space s, c),
                d ∙ ap (λ b. p.conflict || b) (differs_secret m (trim_space s) (others current os)),
                e,
              ))
    ]

agree_all :
    (a : Manifest) (ms : List Manifest)
    → differs a ms ≡ false
    → (b : Manifest) → same_update_manifest a b ≡ true
    → differs b ms ≡ false
agree_all a [] h b e = refl
agree_all a (c ∷ ms) h b e = ground (arith, agree_all a ms (ground arith) b e, same_join a b c e)

-- If none of `ms` differs from `a`, none differs from another of them.
agree_each :
    (a : Manifest) (ms ns : List Manifest)
    → differs a ms ≡ false
    → differs a ns ≡ false
    → exists_in (λ b. differs b ms) ns ≡ false
agree_each a ms [] h k = refl
agree_each a ms (b ∷ ns) h k = ground (arith, agree_all a ms h b, agree_each a ms ns h)

disagree_lem : (a : Manifest) (ms : List Manifest) → disagree (a ∷ ms) ≡ differs a ms
unfolding disagree
disagree_lem a ms = elim (Bool-cases (differs a ms)) [
  | inl e ↦ rw (same_refl a, e)
  | inr e ↦
      let d : differs a (a ∷ ms) ≡ false = rw (same_refl a) e in
      rw (d, agree_each a (a ∷ ms) ms d e) (sym e)
]

plan_of :
    (q : Plan) (ms : List Manifest) (current : Bool)
    → Outcome no_plan q ms current
    → (q.conflict ≡ disagree ms)
      × (q.skipped_current ≡ current)
      × (is_some q.manifest ≡ not (is_empty ms))
unfolding disagree
plan_of q [] current (m, c, s) = (c, s, ap is_some m)
plan_of q (a ∷ ms) current ((_, m), c, s) = (c ∙ sym (disagree_lem a ms), s, ap is_some m)

-- The plan of a round: a conflict is recorded exactly when two targets offer different updates to
-- other versions, the current version is noted exactly when some target offers it, and a manifest
-- is chosen exactly when some target offers another version.
pub plan_lem :
    (current : Text) (os : List Offer)
    → let p = add_all current os no_plan in
      (p.conflict ≡ disagree (others current os))
      × (p.skipped_current ≡ offers_current current os)
      × (is_some p.manifest ≡ not (is_empty (others current os)))
plan_lem current os =
    plan_of _ (others current os) (offers_current current os) (add_all_lem current os no_plan refl)
