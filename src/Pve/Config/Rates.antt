-- ===== src/Pve/Config/Rates.antt =====
-- The rate limits that are read are those that Validate takes.
use ithiltir_node.Base.{
  ℕ, ◌≡◌, inl, inr, refl, subst, Bool, true, false, ◌||◌, not, Option, none, some, List, [], ◌∷◌,
  ◌++◌, Text, codes, text_eq, trim_space, ℤ, pos, negsuc, if◌then◌else◌, starts_with, cut_at,
  split_at, parse_int, put_text, and_then-some, Bool-cases, some_inj, Option-cases, arith,
}
use ithiltir_node.Pve.Snapshot.{Addr, are_limits}
use ithiltir_node.Pve.Snapshot.Limits.{IsLimit-pos, is_rate_intro, are_limits-put, are_limits-nil}
use ithiltir_node.Pve.Config.{
  is_nic, nic_index, next_rate, rate_of, scaled, checked_rate, limit_line, limits_from,
  network_rate_limits,
}

nic_cases :
    (itoa : ℤ → Text) (name : Text) (o : Option ℤ) (index : ℤ)
    → (if is_nic itoa name o then o else none) ≡ some index
    → (n : ℕ) × (o ≡ some (pos n)) × (text_eq name (codes "net" ++ itoa (pos n)) ≡ true)
unfolding is_nic
nic_cases itoa name none index h = cc h
nic_cases itoa name (some (negsuc n)) index h = cc h
nic_cases itoa name (some (pos n)) index h =
    elim (Bool-cases (text_eq name (codes "net" ++ itoa (pos n)))) [
      | inl e ↦ (n, refl, e)
      | inr e ↦ cc (rw e at h)
    ]

module _ (parse_addr : Text → Option Addr) (itoa : ℤ → Text) {Float : Type 0}
    (is_nan is_inf is_negative : Float → Bool) (zero_rate : Float)
    (parse_rate : Text → Option Float) (to_mbps : Float → Float) where
  -- Neither NaN nor infinite nor negative.
  abbrev IsGood : Float → Type 0
  IsGood r = (is_nan r ≡ false) × (is_inf r ≡ false) × (is_negative r ≡ false)

  checked-IsGood :
      (o : Option Float) (r : Float)
      → checked_rate itoa zero_rate parse_rate is_nan is_inf is_negative to_mbps o ≡ some r
      → IsGood r
  unfolding checked_rate
  checked-IsGood none r h = cc h
  checked-IsGood (some q) r h = elim (Bool-cases (is_nan q || is_inf q || is_negative q)) [
    | inl e ↦ cc (rw e at h)
    | inr e ↦
        let same : ◌≡◌ {A = Option Float} (some q) (some r) = rw e at h in
        subst IsGood (some_inj q r same) (ground arith, ground arith, ground arith)
  ]

  next-IsGood :
      (o : Option (Text × Text)) (rate r : Float)
      → next_rate itoa zero_rate parse_rate is_nan is_inf is_negative to_mbps o rate ≡ some r
      → IsGood rate
      → IsGood r
  unfolding next_rate
  next-IsGood none rate r h g = subst IsGood (some_inj rate r h) g
  next-IsGood (some (key, value)) rate r h g = elim (Bool-cases (text_eq key (codes "rate"))) [
    | inl e ↦ checked-IsGood (parse_rate value) r (rw e at h)
    | inr e ↦ subst IsGood (some_inj rate r (rw e at h)) g
  ]

  rate-IsGood :
      (properties : List Text) (rate r : Float)
      → rate_of itoa zero_rate parse_rate is_nan is_inf is_negative to_mbps properties rate ≡ some r
      → IsGood rate
      → IsGood r
  unfolding rate_of
  rate-IsGood [] rate r h g = subst IsGood (some_inj rate r h) g
  rate-IsGood (property ∷ properties) rate r h g =
      let line = cut_at b'=' (trim_space property) in
      let (q, e, rest) =
        and_then-some
          (next_rate itoa zero_rate parse_rate is_nan is_inf is_negative to_mbps line rate) _ h in
      rate-IsGood properties q r rest (next-IsGood line rate q e g)

  module _ (zero-IsGood : IsGood zero_rate)
      (mbps_good : (r : Float)
        → IsGood r
        → (is_nan (to_mbps r) ≡ false) × (is_negative (to_mbps r) ≡ false)) where
    scaled-IsGood :
        (properties : List Text) (r : Float)
        → scaled itoa zero_rate parse_rate is_nan is_inf is_negative to_mbps (
            rate_of itoa zero_rate parse_rate is_nan is_inf is_negative to_mbps properties
              zero_rate)
          ≡ some r
        → IsGood r
    unfolding scaled
    scaled-IsGood properties r h =
        elim (Option-cases (
          rate_of itoa zero_rate parse_rate is_nan is_inf is_negative to_mbps properties
            zero_rate)) [
              | inl e ↦ cc (rw e at h)
              | inr (q, e) ↦
                  let (nan, neg) = mbps_good q (rate-IsGood properties zero_rate q e zero-IsGood) in
                  elim (Bool-cases (is_inf (to_mbps q))) [
                    | inl f ↦ cc (rw (e, f) at h)
                    | inr f ↦ subst IsGood (some_inj (to_mbps q) r (rw (e, f) at h)) (nan, f, neg)
                  ]
            ]

    line_limits :
        (line : Option (Text × Text)) (limits next : List (Text × Float))
        → limit_line itoa zero_rate parse_rate is_nan is_inf is_negative to_mbps line limits
          ≡ some next
        → are_limits parse_addr parse_int itoa is_nan is_inf is_negative limits ≡ true
        → are_limits parse_addr parse_int itoa is_nan is_inf is_negative next ≡ true
    unfolding limit_line
    line_limits none limits next h l =
        subst (λ t. are_limits parse_addr parse_int itoa is_nan is_inf is_negative t ≡ true)
          (some_inj limits next h) l
    line_limits (some (name, value)) limits next h l =
        elim (Bool-cases (not (starts_with (codes "net") name))) [
          | inl e ↦
              subst (λ t. are_limits parse_addr parse_int itoa is_nan is_inf is_negative t ≡ true)
                (some_inj limits next (rw e at h)) l
          | inr e ↦ elim (Option-cases (nic_index itoa name)) [
            | inl f ↦
                subst (λ t. are_limits parse_addr parse_int itoa is_nan is_inf is_negative t ≡ true)
                  (some_inj limits next (rw (e, f) at h)) l
            | inr (index, f) ↦
                let rate = scaled itoa zero_rate parse_rate is_nan is_inf is_negative to_mbps (
                  rate_of itoa zero_rate parse_rate is_nan is_inf is_negative to_mbps
                    (split_at b',' value) zero_rate) in
                elim (Option-cases rate) [
                  | inl z ↦ cc (rw (e, f, z) at h)
                  | inr (r, z) ↦
                      let (n, i, t) = nic_cases itoa name _ index (unfold nic_index in f) in
                      let (nan, inf, neg) = scaled-IsGood (split_at b',' value) r z in
                      subst
                        (λ t.
                          are_limits parse_addr parse_int itoa is_nan is_inf is_negative t ≡ true)
                        (some_inj (put_text name r limits) next (rw (e, f, z) at h))
                        (are_limits-put parse_addr parse_int itoa is_nan is_inf is_negative name r
                          limits
                          (IsLimit-pos parse_addr parse_int itoa is_nan is_inf is_negative name n i
                            t)
                          (is_rate_intro parse_addr parse_int itoa is_nan is_inf is_negative r nan
                            inf neg)
                          l)
                ]
          ]
        ]

    lines_limits :
        (lines : List Text) (limits found : List (Text × Float))
        → limits_from itoa zero_rate parse_rate is_nan is_inf is_negative to_mbps lines limits
          ≡ some found
        → are_limits parse_addr parse_int itoa is_nan is_inf is_negative limits ≡ true
        → are_limits parse_addr parse_int itoa is_nan is_inf is_negative found ≡ true
    unfolding limits_from
    lines_limits [] limits found h l =
        subst (λ t. are_limits parse_addr parse_int itoa is_nan is_inf is_negative t ≡ true)
          (some_inj limits found h) l
    lines_limits (raw ∷ lines) limits found h l =
        elim (Bool-cases (starts_with (codes "[") (trim_space raw))) [
          | inl e ↦
              subst (λ t. are_limits parse_addr parse_int itoa is_nan is_inf is_negative t ≡ true)
                (some_inj limits found (rw e at h)) l
          | inr e ↦
              let line =
                limit_line itoa zero_rate parse_rate is_nan is_inf is_negative to_mbps
                  (cut_at b':' (trim_space raw)) limits in
              elim (Option-cases line) [
                | inl f ↦ cc (rw (e, f) at h)
                | inr (next, f) ↦
                    lines_limits lines next found (rw (e, f) at h)
                      (line_limits (cut_at b':' (trim_space raw)) limits next f l)
              ]
        ]

    -- What networkRateLimits gives passes the checks of Validate, if scaling a rate to megabits gives
    -- no NaN and no negative number.
    pub network_rate_limits-are_limits :
        (raw : Text) (limits : List (Text × Float))
        → network_rate_limits itoa zero_rate parse_rate is_nan is_inf is_negative to_mbps raw
          ≡ some limits
        → are_limits parse_addr parse_int itoa is_nan is_inf is_negative limits ≡ true
    unfolding network_rate_limits
    network_rate_limits-are_limits raw limits h =
        lines_limits (split_at b'\n' raw) [] limits h
          (are_limits-nil parse_addr parse_int itoa is_nan is_inf is_negative)
