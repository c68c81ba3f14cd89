-- ===== src/Base/Order.antt =====
-- The order of strings.
use mathlib.Core.Path.{◌≡◌, refl}
use mathlib.Core.Bool.{Bool, true, false, ◌&&◌, ◌||◌}
use mathlib.Core.List.{[], ◌∷◌}
use native.Mathlib.Omega.{arith}
use ithiltir_node.Base.Tests.{ltb, ◌==◌}
use ithiltir_node.Base.Strings.{Text}

-- `a < b`, of code points, which UTF-8 keeps in order.
unfoldable pub text_less : Text → Text → Bool
text_less s [] = false
text_less [] (d ∷ t) = true
text_less (c ∷ s) (d ∷ t) = ltb c d || c == d && text_less s t

pub text_less_irrefl : (s : Text) → text_less s s ≡ false
unfolding text_less
text_less_irrefl [] = refl
text_less_irrefl (c ∷ s) = let rest = text_less_irrefl s in ground arith

pub text_less_trans :
    (s t u : Text) → text_less s t ≡ true → text_less t u ≡ true → text_less s u ≡ true
unfolding text_less
text_less_trans s [] u p q = cc p
text_less_trans s (d ∷ t) [] p q = cc q
text_less_trans [] (d ∷ t) (e ∷ u) p q = refl
text_less_trans (c ∷ s) (d ∷ t) (e ∷ u) p q =
    let rest = text_less_trans s t u in ground (arith, rest)

pub text_less_total : (s t : Text) → text_less s t ≡ false → text_less t s ≡ false → s ≡ t
unfolding text_less
text_less_total [] [] p q = refl
text_less_total [] (d ∷ t) p q = cc p
text_less_total (c ∷ s) [] p q = cc q
text_less_total (c ∷ s) (d ∷ t) p q =
    let same : c ≡ d = ground arith in
    let rest = text_less_total s t (ground arith) (ground arith) in rw (same, rest) refl
