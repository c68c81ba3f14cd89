-- ===== src/Push/Virt/Delivery.antt =====
-- What is delivered, how often, and after which pauses.
use ithiltir_node.Base.{
  ℕ, ◌+◌, ◌*◌, ◌-◌, ◌≤◌, ◌≡◌, ◌≢◌, inl, inr, refl, sym, ◌∙◌, Bool, true, Option, List, [], ◌∷◌,
  ◌++◌, Text, codes, text_eq, byte_length, ℤ, second, minute, ltb, ◌==◌, Result, ok, err,
  Bool-cases, arith,
}
use ithiltir_node.Pve.Snapshot.{Addr, Snapshot, is_valid}
use ithiltir_node.Pve.Snapshot.Later.{failed_at-is_valid}
use ithiltir_node.Push.Target.{Target}
use ithiltir_node.Push.Virt.{
  VirtLoop, Round, cut_bytes, error_text, unavailable, observe, deliver, push_virt, new_loop,
}

byte_length-append : (s t : Text) → byte_length (s ++ t) ≡ byte_length s + byte_length t
unfolding byte_length
byte_length-append [] t = omega arith
byte_length-append (c ∷ s) t = ground (arith, byte_length-append s t)

byte_length-cons : (c : ℕ) (s : Text) → byte_length (c ∷ s) ≡ byte_length (c ∷ []) + byte_length s
unfolding byte_length
byte_length-cons c s = omega arith

cut_short : (n : ℕ) (s : Text) → byte_length (cut_bytes n s) ≤ n
unfolding cut_bytes
cut_short n [] = unfold byte_length in omega arith
cut_short n (c ∷ s) =
    let size = byte_length (c ∷ []) in
    elim (Bool-cases (ltb n size)) [
      | inl e ↦ rw e (unfold byte_length in omega arith)
      | inr e ↦
          rw e (ground (arith, byte_length-cons c (cut_bytes (n - size) s), cut_short (n - size) s))
    ]

-- An error text has at most 1024 bytes, and is the message itself if that fits.
error_text_lem :
    (m : Text) → (byte_length (error_text m) ≤ 1024) × (byte_length m ≤ 1024 → error_text m ≡ m)
unfolding error_text
error_text_lem m = elim (Bool-cases (ltb 1024 (byte_length m))) [
  | inl e ↦
      let dots : byte_length (codes "...") ≡ 3 = unfold byte_length in refl in
      rw e (
        ground (arith, byte_length-append (cut_bytes 1021 m) (codes "..."), cut_short 1021 m, dots),
        λ fits. absurd (ground arith),
      )
  | inr e ↦ rw e (ground arith, λ fits. refl)
]

append-full : (s t : Text) → t ≢ [] → s ++ t ≢ []
append-full [] t h e = h e
append-full (c ∷ s) t h e = ground arith

error_text_full : (m : Text) → m ≢ [] → error_text m ≢ []
unfolding error_text
error_text_full m h = elim (Bool-cases (ltb 1024 (byte_length m))) [
  | inl e ↦ rw e (append-full (cut_bytes 1021 m) (codes "...") (λ e. ground arith))
  | inr e ↦ rw e h
]

module _ {Float : Type 0} where
  -- The loops after rounds.
  pub rounds : List (Round Float) → VirtLoop Float → VirtLoop Float
  rounds [] l = l
  rounds (r ∷ rs) l = rounds rs (push_virt r l)

  abbrev Bounded : VirtLoop Float → Type 0
  Bounded l = (3 * second ≤ l.delay) × (l.delay ≤ minute)

  observe_keeps :
      (r : Round Float) (q : Result Text (Snapshot Float)) (l : VirtLoop Float)
      → ((observe r q l).delay ≡ l.delay) × ((observe r q l).sent ≡ l.sent)
  unfolding observe
  observe_keeps r (ok s) l = (refl, refl)
  observe_keeps r (err m) l = elim (Bool-cases (text_eq l.read_error (error_text m))) [
    | inl e ↦ rw e (refl, refl)
    | inr e ↦ rw e (refl, refl)
  ]

  deliver-Bounded : (r : Round Float) (l : VirtLoop Float) → Bounded l → Bounded (deliver r l)
  unfolding deliver
  deliver-Bounded r l h = ground arith

  deliver_known :
      (r : Round Float) (l : VirtLoop Float) → l.snapshot.collected_at ≡ l.sent → deliver r l ≡ l
  unfolding deliver
  deliver_known r l h =
      let same : (l.snapshot.collected_at == l.sent) ≡ true = ground arith in rw same refl

  push_virt-Bounded : (r : Round Float) (l : VirtLoop Float) → Bounded l → Bounded (push_virt r l)
  unfolding push_virt
  push_virt-Bounded r l h =
      deliver-Bounded r (observe r r.read l) (ground (arith, (observe_keeps r r.read l).0))

  rounds-Bounded :
      (rs : List (Round Float)) (l : VirtLoop Float) → Bounded l → Bounded (rounds rs l)
  unfolding rounds
  rounds-Bounded [] l h = h
  rounds-Bounded (r ∷ rs) l h = rounds-Bounded rs (push_virt r l) (push_virt-Bounded r l h)

  -- The pause of the loop is from three seconds to a minute in every run.
  rounds_bounded :
      (t : Target) (rs : List (Round Float))
      → (3 * second ≤ (rounds rs (new_loop t)).delay) × ((rounds rs (new_loop t)).delay ≤ minute)
  unfolding new_loop
  rounds_bounded t rs = rounds-Bounded rs (new_loop t) (omega arith, omega arith)

  -- After a round that delivered its snapshot, a round that reads a snapshot of the same instant
  -- sends nothing: the target, the mark of the delivery and the pause stay, whatever the network
  -- would do.
  delivered_once :
      (r r' : Round Float) (l : VirtLoop Float) (s : Snapshot Float)
      → (push_virt r l).sent ≡ (push_virt r l).snapshot.collected_at
      → r'.read ≡ ok s
      → s.collected_at ≡ (push_virt r l).snapshot.collected_at
      → push_virt r' (push_virt r l) ≡ record (push_virt r l) { snapshot = s; read_error = [] }
  unfolding observe push_virt deliver
  delivered_once r r' l s e f g =
      let l' = push_virt r l in
      let seen = record l' { snapshot = s; read_error = [] } in
      rw f (deliver_known r' seen (g ∙ sym e))

  module _ (parse_addr : Text → Option Addr) (atoi : Text → Option ℤ) (itoa : ℤ → Text)
      (is_nan is_inf is_negative : Float → Bool) where
    -- If the loop holds a valid snapshot and the helper then fails with a message that is not empty,
    -- at a time not before the snapshot's, what the loop holds is still valid.
    pub unavailable-is_valid :
        (r : Round Float) (m : Text) (l : VirtLoop Float)
        → is_valid parse_addr atoi itoa is_nan is_inf is_negative l.snapshot ≡ true
        → l.snapshot.collected_at ≤ r.now
        → m ≢ []
        → is_valid parse_addr atoi itoa is_nan is_inf is_negative (observe r (err m) l).snapshot
          ≡ true
    unfolding observe unavailable
    unavailable-is_valid r m l v h n = elim (Bool-cases (text_eq l.read_error (error_text m))) [
      | inl e ↦ rw e v
      | inr e ↦ rw e (
          failed_at-is_valid parse_addr atoi itoa is_nan is_inf is_negative l.snapshot r.now
            (error_text m) v h (error_text_full m n) (error_text_lem m).0)
    ]
