-- ===== src/Pve/Snapshot/Limits.antt =====
-- The rate limits of a machine, one put after the other.
use ithiltir_node.Base.{
  ℕ, ◌≡◌, inl, inr, refl, Bool, true, false, ◌&&◌, Option, some, List, [], ◌∷◌, ◌++◌, Text, codes,
  text_eq, ℤ, pos, without_prefix, put_text, Bool-cases, arith,
}
use ithiltir_node.Pve.Snapshot.{Addr, is_rate, is_index, are_limits}

and_three : (a b c : Bool) → a && b && c ≡ true → (a ≡ true) × (b ≡ true) × (c ≡ true)
and_three a b c h = ground arith

and_join : (a b c : Bool) → a ≡ true → b ≡ true → c ≡ true → a && b && c ≡ true
and_join a b c h k l = ground arith

module _ (parse_addr : Text → Option Addr) (atoi : Text → Option ℤ) (itoa : ℤ → Text)
    {Float : Type 0} (is_nan is_inf is_negative : Float → Bool) where
  -- The name of a limit that Validate takes.
  abbrev IsLimit : Text → Type 0
  IsLimit name =
      is_index parse_addr atoi itoa is_nan is_inf is_negative name
        (atoi (without_prefix (codes "net") name))
      ≡ true

  pub are_limits-put :
      (name : Text) (rate : Float) (limits : List (Text × Float))
      → IsLimit name
      → is_rate parse_addr atoi itoa is_nan is_inf is_negative rate ≡ true
      → are_limits parse_addr atoi itoa is_nan is_inf is_negative limits ≡ true
      → are_limits parse_addr atoi itoa is_nan is_inf is_negative (put_text name rate limits) ≡ true
  unfolding are_limits put_text
  are_limits-put name rate [] i r h = and_join _ _ true i r refl
  are_limits-put name rate ((j, old) ∷ limits) i r h =
      let (a, b, c) =
        and_three
          (is_index parse_addr atoi itoa is_nan is_inf is_negative j
            (atoi (without_prefix (codes "net") j)))
          (is_rate parse_addr atoi itoa is_nan is_inf is_negative old)
          (are_limits parse_addr atoi itoa is_nan is_inf is_negative limits) h in
      elim (Bool-cases (text_eq name j)) [
        | inl e ↦ rw e (and_join _ _ _ a r c)
        | inr e ↦ rw e (and_join _ _ _ a b (are_limits-put name rate limits i r c))
      ]

  pub are_limits-nil : are_limits parse_addr atoi itoa is_nan is_inf is_negative [] ≡ true
  unfolding are_limits
  are_limits-nil = refl

  pub IsLimit-pos :
      (name : Text) (n : ℕ)
      → atoi (without_prefix (codes "net") name) ≡ some (pos n)
      → text_eq name (codes "net" ++ itoa (pos n)) ≡ true
      → IsLimit name
  unfolding is_index
  IsLimit-pos name n e h = rw e h

  pub is_rate_intro :
      (r : Float)
      → is_nan r ≡ false
      → is_inf r ≡ false
      → is_negative r ≡ false
      → is_rate parse_addr atoi itoa is_nan is_inf is_negative r ≡ true
  unfolding is_rate
  is_rate_intro r h k l = rw (h, k, l) refl
