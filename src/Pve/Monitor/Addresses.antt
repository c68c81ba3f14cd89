-- ===== src/Pve/Monitor/Addresses.antt =====
-- The addresses of a guest pass the validation of the snapshot.
use ithiltir_node.Base.{
  ◌≢◌, ℕ, suc, ◌≤◌, ◌≡◌, inl, inr, refl, ap, subst, ◌∙◌, Bool, true, false, ◌||◌, Option, none,
  some, List, [], ◌∷◌, Text, text_less, text_eq, ℤ, All, exists_in, length, ◌==◌, and_then-some,
  Bool-cases, some_inj, Option-cases, arith,
}
use ithiltir_node.Pve.Snapshot.{Addr, are_addresses}
use ithiltir_node.Pve.Snapshot.Addresses.{
  DistinctTexts, ReadsBack, text_neq_sym, or_none, are_addresses_intro,
}
use ithiltir_node.Pve.Monitor.{insert_text, sort_texts, usable, gather_ips, decode_ips}

in_insert :
    (t s : Text) (ss : List Text)
    → exists_in (text_eq t) (insert_text s ss) ≡ text_eq t s || exists_in (text_eq t) ss
unfolding insert_text
in_insert t s [] = refl
in_insert t s (r ∷ ss) = elim (Bool-cases (text_less r s)) [
  | inl e ↦ rw (e, in_insert t s ss) (ground arith)
  | inr e ↦ rw e refl
]

insert-All :
    (P : Text → Type 0) (s : Text) (ss : List Text) → P s → All P ss → All P (insert_text s ss)
unfolding insert_text
insert-All P s [] p ps = (p, tt)
insert-All P s (r ∷ ss) p ps = elim (Bool-cases (text_less r s)) [
  | inl e ↦ rw e (ps.0, insert-All P s ss p ps.1)
  | inr e ↦ rw e (p, ps)
]

insert_distinct :
    (s : Text) (ss : List Text)
    → exists_in (text_eq s) ss ≡ false
    → DistinctTexts ss
    → DistinctTexts (insert_text s ss)
unfolding insert_text
insert_distinct s [] h d = (refl, tt)
insert_distinct s (r ∷ ss) h d =
    let (a, b) = or_none (text_eq s r) (exists_in (text_eq s) ss) h in
    elim (Bool-cases (text_less r s)) [
      | inl e ↦ rw e (rw (in_insert r s ss, text_neq_sym s r a) d.0, insert_distinct s ss b d.1)
      | inr e ↦ rw e (h, d)
    ]

in_sort :
    (t : Text) (ss : List Text) → exists_in (text_eq t) (sort_texts ss) ≡ exists_in (text_eq t) ss
unfolding sort_texts
in_sort t [] = refl
in_sort t (s ∷ ss) = in_insert t s (sort_texts ss) ∙ ap (λ b. text_eq t s || b) (in_sort t ss)

sort_distinct : (ss : List Text) → DistinctTexts ss → DistinctTexts (sort_texts ss)
unfolding sort_texts
sort_distinct [] d = tt
sort_distinct (s ∷ ss) d =
    insert_distinct s (sort_texts ss) (in_sort s ss ∙ d.0) (sort_distinct ss d.1)

sort-All : (P : Text → Type 0) (ss : List Text) → All P ss → All P (sort_texts ss)
unfolding sort_texts
sort-All P [] h = tt
sort-All P (s ∷ ss) h = insert-All P s (sort_texts ss) h.0 (sort-All P ss h.1)

length-insert : (s : Text) (ss : List Text) → length (insert_text s ss) ≡ suc (length ss)
unfolding insert_text
length-insert s [] = refl
length-insert s (r ∷ ss) = elim (Bool-cases (text_less r s)) [
  | inl e ↦ rw e (ap (λ (n : ℕ). suc n) (length-insert s ss))
  | inr e ↦ rw e refl
]

length-sort : (ss : List Text) → length (sort_texts ss) ≡ length ss
unfolding sort_texts
length-sort [] = refl
length-sort (s ∷ ss) = length-insert s (sort_texts ss) ∙ ap (λ (n : ℕ). suc n) (length-sort ss)

unseen : (ips : List Text) → All (λ t. exists_in (text_eq t) [] ≡ false) ips
unseen [] = tt
unseen (ip ∷ ips) = (refl, unseen ips)

module _ (parse_guest : Text → Option Addr) (P : Text → Type 0) where
  gathered :
      (ips raws found : List Text)
      → gather_ips parse_guest ips raws ≡ some found
      → ((raw ip : Text) → usable (parse_guest raw) ≡ some ip → P ip)
      → All P ips
      → DistinctTexts ips
      → length ips ≤ 1024
      → All P found × DistinctTexts found × (length found ≤ 1024)
  unfolding gather_ips
  gathered ips [] found h u p d n =
      subst (λ t. All P t × DistinctTexts t × (length t ≤ 1024)) (some_inj ips found h) (p, d, n)
  gathered ips (raw ∷ raws) found h u p d n = elim (Option-cases (usable (parse_guest raw))) [
    | inl e ↦ gathered ips raws found (rw (gather_ips, e) at h) u p d n
    | inr (ip, e) ↦ elim (Bool-cases (exists_in (text_eq ip) ips)) [
      | inl f ↦ gathered ips raws found (rw (gather_ips, e, f) at h) u p d n
      | inr f ↦ elim (Bool-cases (length ips == 1024)) [
        | inl g ↦ cc (rw (gather_ips, e, f, g) at h)
        | inr g ↦
            gathered (ip ∷ ips) raws found (rw (gather_ips, e, f, g) at h) u (u raw ip e, p) (f, d)
              (ground arith)
      ]
    ]
  ]

not_some {ℓ} : {A : Type ℓ} (a : A) → ◌≢◌ {A = Option A} none (some a)
not_some a h = cc h

module _ (parse_addr parse_guest : Text → Option Addr) (atoi : Text → Option ℤ) (itoa : ℤ → Text)
    {Float : Type 0} (is_nan is_inf is_negative : Float → Bool) where
  usable-ReadsBack :
      (o : Option Addr) (ip : Text)
      → ((a : Addr)
          → o ≡ some a
          → a.zoned ≡ false
          → parse_addr a.unmapped
            ≡ some (record {
              zoned = false;
              is_global_unicast = a.is_global_unicast;
              unmapped = a.unmapped;
            }))
      → usable o ≡ some ip
      → ReadsBack parse_addr atoi itoa is_nan is_inf is_negative ip
  unfolding usable
  usable-ReadsBack none ip u h = cc h
  usable-ReadsBack (some a) ip u h = elim (Bool-cases a.zoned) [
    | inl z ↦ absurd (not_some ip (rw z at h))
    | inr z ↦ elim (Bool-cases a.is_global_unicast) [
      | inl g ↦
          let same : a.unmapped ≡ ip = some_inj a.unmapped ip (rw (z, g) at h) in
          let back = u a refl z in
          subst (λ t. ReadsBack parse_addr atoi itoa is_nan is_inf is_negative t) same
            (rw g at back)
      | inr g ↦ absurd (not_some ip (rw (z, g) at h))
    ]
  ]

  -- If the text of an unmapped address without a zone parses as that address again, then what
  -- decodeIPs gives, of whatever the guest says, passes the checks of Validate: at most 1024
  -- addresses, distinct, without a zone and global unicast.
  pub decode_ips-are_addresses :
      (found : Option (List Text)) (ips : List Text)
      → decode_ips parse_guest found ≡ some ips
      → ((raw : Text) (a : Addr)
          → parse_guest raw ≡ some a
          → a.zoned ≡ false
          → parse_addr a.unmapped
            ≡ some (record {
              zoned = false;
              is_global_unicast = a.is_global_unicast;
              unmapped = a.unmapped;
            }))
      → (are_addresses parse_addr atoi itoa is_nan is_inf is_negative [] ips ≡ true)
        × (length ips ≤ 1024)
  unfolding decode_ips
  decode_ips-are_addresses none ips h u = cc h
  decode_ips-are_addresses (some raws) ips h u =
      let P = ReadsBack parse_addr atoi itoa is_nan is_inf is_negative in
      let (gathering, g, last) = and_then-some (gather_ips parse_guest [] raws) _ h in
      let (p, d, n) =
        gathered parse_guest P [] raws gathering g
          (λ raw ip k. usable-ReadsBack (parse_guest raw) ip (u raw) k) tt tt (omega arith) in
      let same = some_inj (sort_texts gathering) ips last in
      (
        subst (λ t. are_addresses parse_addr atoi itoa is_nan is_inf is_negative [] t ≡ true) same
            (are_addresses_intro parse_addr atoi itoa is_nan is_inf is_negative []
              (sort_texts gathering) (sort-All P gathering p) (sort_distinct gathering d)
              (unseen (sort_texts gathering))),
        subst (λ t. length t ≤ 1024) same (rw (length-sort gathering) n),
      )
