-- ===== src/Push/Update/Order.antt =====
-- The replies of a round arrive in any order: what is decided about the update does not depend on it.
use mathlib.Core.List.{Perm, Permᴰ}
use mathlib.Core.Logic.{∥∥₁_elim}
use mathlib.Core.Bool.{Bool-set}
use mathlib.Core.Path.{fun_ext}
use ithiltir_node.Base.{
  ◌≡◌, refl, sym, ◌∙◌, ap, Bool, true, false, ◌&&◌, ◌||◌, not, none, some, Text, is_empty, is_some,
  List, [], ◌∷◌, exists_in, arith,
}
use ithiltir_node.Push.Update.{Manifest, no_plan, same_node_version, same_update_manifest}
use ithiltir_node.Push.Update.Agreement.{Offer, add_all, others, offers_current, disagree, plan_lem}

exists_in-perm :
    {A : Type 0} (p : A → Bool) {xs ys : List A} → Permᴰ xs ys → exists_in p xs ≡ exists_in p ys
exists_in-perm p Permᴰ.nil = refl
exists_in-perm p (Permᴰ.cons e d) = λ i. p (e i) || exists_in-perm p d i
exists_in-perm p (Permᴰ.swap {l = l} e f) = ground (arith, ap p e, ap p f)
exists_in-perm p (Permᴰ.trans d d') = exists_in-perm p d ∙ exists_in-perm p d'

-- A test of an offer of another version.
on_other : Text → (Manifest → Bool) → Offer → Bool
on_other current f (none, s) = false
on_other current f (some m, s) = not (same_node_version m.version current) && f m

on_current : Text → Offer → Bool
on_current current (none, s) = false
on_current current (some m, s) = same_node_version m.version current

others-exists :
    (current : Text) (f : Manifest → Bool) (os : List Offer)
    → exists_in f (others current os) ≡ exists_in (on_other current f) os
unfolding others on_other
others-exists current f [] = refl
others-exists current f ((none, s) ∷ os) = others-exists current f os
others-exists current f ((some m, s) ∷ os) = ground (arith, others-exists current f os)

offers_current-exists :
    (current : Text) (os : List Offer)
    → offers_current current os ≡ exists_in (on_current current) os
unfolding offers_current on_current
offers_current-exists current [] = refl
offers_current-exists current ((none, s) ∷ os) = offers_current-exists current os
offers_current-exists current ((some m, s) ∷ os) =
    ap (λ b. same_node_version m.version current || b) (offers_current-exists current os)

module _ {os os' : List Offer} (current : Text) (d : Permᴰ os os') where
  others-perm :
      (f : Manifest → Bool) → exists_in f (others current os) ≡ exists_in f (others current os')
  others-perm f =
      others-exists current f os
      ∙ exists_in-perm (on_other current f) d
      ∙ sym (others-exists current f os')

  disagree-perm : disagree (others current os) ≡ disagree (others current os')
  unfolding disagree
  disagree-perm =
      ap (λ (f : Manifest → Bool). exists_in f (others current os))
        (fun_ext (λ a. others-perm (λ b. not (same_update_manifest a b))))
      ∙ others-perm (λ a. exists_in (λ b. not (same_update_manifest a b)) (others current os'))

  nonempty-perm : not (is_empty (others current os)) ≡ not (is_empty (others current os'))
  nonempty-perm = sym (any (others current os)) ∙ others-perm (λ _. true) ∙ any (others current os')
    where
      any : (ms : List Manifest) → exists_in (λ _. true) ms ≡ not (is_empty ms)
      any [] = refl
      any (m ∷ ms) = refl

-- Whether a round finds a conflict, meets the current version, or chooses an update is the same in
-- whatever order the replies of its targets arrive.
plan_order :
    (current : Text) {os os' : List Offer}
    → Perm os os'
    → let p = add_all current os no_plan in
      let q = add_all current os' no_plan in
      (p.conflict ≡ q.conflict)
      × (p.skipped_current ≡ q.skipped_current)
      × (is_some p.manifest ≡ is_some q.manifest)
plan_order current {os} {os'} perm = ∥∥₁_elim perm (hlevel Bool-set) (λ d.
    let (c, s, m) = plan_lem current os in
    let (c', s', m') = plan_lem current os' in
    (
      c ∙ disagree-perm current d ∙ sym c',
      s
          ∙ offers_current-exists current os
          ∙ exists_in-perm (on_current current) d
          ∙ sym (offers_current-exists current os')
          ∙ sym s',
      m ∙ nonempty-perm current d ∙ sym m',
    ))
