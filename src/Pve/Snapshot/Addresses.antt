-- ===== src/Pve/Snapshot/Addresses.antt =====
-- Addresses that pass the checks of Validate.
use ithiltir_node.Base.{
  ◌≡◌, inl, inr, refl, sym, Bool, true, false, ◌||◌, Option, some, List, [], ◌∷◌, Text, text_eq,
  text_eq_iff, ℤ, All, exists_in, Bool-cases, arith,
}
use ithiltir_node.Pve.Snapshot.{Addr, are_addresses}

abbrev pub DistinctTexts : List Text → Type 0
DistinctTexts [] = Unit
DistinctTexts (s ∷ ss) = (exists_in (text_eq s) ss ≡ false) × DistinctTexts ss

pub text_neq_sym : (s t : Text) → text_eq s t ≡ false → text_eq t s ≡ false
text_neq_sym s t h = elim (Bool-cases (text_eq t s)) [
  | inl e ↦ cc (h, (text_eq_iff s t).1 (sym ((text_eq_iff t s).0 e)))
  | inr e ↦ e
]

pub or_none : (a b : Bool) → a || b ≡ false → (a ≡ false) × (b ≡ false)
or_none a b h = (ground arith, ground arith)

-- No text of the list is `s`.
apart_from :
    (s : Text) (ss : List Text)
    → exists_in (text_eq s) ss ≡ false
    → All (λ t. text_eq t s ≡ false) ss
apart_from s [] h = tt
apart_from s (t ∷ ss) h =
    let (a, b) = or_none (text_eq s t) (exists_in (text_eq s) ss) h in
    (text_neq_sym s t a, apart_from s ss b)

fresh_cons :
    (s : Text) (seen ss : List Text)
    → All (λ t. text_eq t s ≡ false) ss
    → All (λ t. exists_in (text_eq t) seen ≡ false) ss
    → All (λ t. exists_in (text_eq t) (s ∷ seen) ≡ false) ss
fresh_cons s seen [] h k = tt
fresh_cons s seen (t ∷ ss) h k = (rw (h.0, k.0) refl, fresh_cons s seen ss h.1 k.1)

module _ (parse_addr : Text → Option Addr) (atoi : Text → Option ℤ) (itoa : ℤ → Text)
    {Float : Type 0} (is_nan is_inf is_negative : Float → Bool) where
  -- A text that parses as itself, as an address without a zone that is global unicast.
  abbrev pub ReadsBack : Text → Type 0
  ReadsBack ip =
      parse_addr ip ≡ some (record { zoned = false; is_global_unicast = true; unmapped = ip })

  pub are_addresses_intro :
      (seen ips : List Text)
      → All ReadsBack ips
      → DistinctTexts ips
      → All (λ t. exists_in (text_eq t) seen ≡ false) ips
      → are_addresses parse_addr atoi itoa is_nan is_inf is_negative seen ips ≡ true
  unfolding are_addresses
  are_addresses_intro seen [] r d f = refl
  are_addresses_intro seen (ip ∷ ips) r d f =
      let rest =
        are_addresses_intro (ip ∷ seen) ips r.1 d.1
          (fresh_cons ip seen ips (apart_from ip ips d.0) f.1) in
      rw (are_addresses, r.0, f.0) rest
