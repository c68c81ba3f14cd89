-- ===== src/Pve/Collector/Turns.antt =====
-- The order in which machines are sampled: round the list, from the one after the last.
use ithiltir_node.Base.{
  ℕ, zero, suc, ◌+◌, ◌-◌, ◌%◌, ◌<◌, ◌≤◌, ◌≡◌, ◌⊎◌, inl, inr, refl, sym, ap, subst, ◌∙◌, Bool, true,
  false, ◌||◌, some, List, [], ◌∷◌, ℤ, int_eq, int_eq_iff, Time, is_some, length, All, exists_in,
  Bool-cases, Option-cases, ltb, min, arith,
}
use native.Mathlib.Nat.{add-mod-mod, mod-lt, mod-add-mod, add-mod_right, mod-eq_of_lt}
use ithiltir_node.Pve.Collector.{
  Observation, Collector, find_entry, all_ids, at_index, is_active, consider, scan, choose, next,
  sample_interval, Choice, take_choice, chosen, idle, panicked,
}
use ithiltir_node.Pve.Collector.Stock.{Stocked}

pub at_index_total : (i : ℕ) (ids : List ℤ) → i < length ids → (id : ℤ) × (at_index i ids ≡ some id)
unfolding at_index
at_index_total i [] h = absurd (omega arith)
at_index_total zero (id ∷ ids) h = (id, refl)
at_index_total (suc i) (id ∷ ids) h = at_index_total i ids (ground arith)

index_bounded : (i : ℕ) (ids : List ℤ) (id : ℤ) → at_index i ids ≡ some id → i < length ids
unfolding at_index
index_bounded i [] id e = ground arith
index_bounded zero (x ∷ ids) id e = omega arith
index_bounded (suc i) (x ∷ ids) id e = omega (arith, index_bounded i ids id e)

pub Stocked-at {ℓ} :
    {A : Type ℓ} (i : ℕ) (ids : List ℤ) (m : List (ℤ × A)) (id : ℤ)
    → Stocked ids m
    → at_index i ids ≡ some id
    → (a : A) × (find_entry id m ≡ some a)
unfolding at_index
Stocked-at i [] m id s e = cc
Stocked-at zero (x ∷ ids) m id s e = elim (Option-cases (find_entry x m)) [
  | inl n ↦ cc (s.0, ap (λ o. is_some o) n)
  | inr (a, f) ↦ (a, ground (arith, f))
]
Stocked-at (suc i) (x ∷ ids) m id s e = Stocked-at i ids m id s.1 e

-- What else happens between two choices: the clock, the machines that are being sampled, and the
-- entries, in the same order.
pub record Moment (Float Rest Process : Type 0) : Type 0 where
  pub now : Time
  pub active : List ℤ
  pub entries : List (ℤ × Observation Float Rest Process)

step_on : (n k o d : ℕ) → suc o ≤ d → ((((k + o) % n + 1) % n + (d - suc o)) % n) ≡ (k + d) % n
step_on n k o d h =
    let whole : ◌≡◌ {A = ℕ} (k + o + 1 + (d - suc o)) (k + d) = omega arith in
    let last : ◌≡◌ {A = ℕ} (k + o + (1 + (d - suc o))) (k + o + 1 + (d - suc o)) = omega arith in
    let mid : ◌≡◌ {A = ℕ} ((k + o) % n + 1 + (d - suc o)) ((k + o) % n + (1 + (d - suc o))) =
      omega arith in
    mod-add-mod ((k + o) % n + 1) n (d - suc o)
    ∙ ap (λ (t : ℕ). t % n) mid
    ∙ mod-add-mod (k + o) n (1 + (d - suc o))
    ∙ ap (λ (t : ℕ). t % n) (last ∙ whole)

or_right : (a b : Bool) → b ≡ true → a || b ≡ true
or_right a b h = ground arith

-- How far on round the list the index `k` is.
ahead : (n c k : ℕ) → k < n → (d : ℕ) × (d < n) × ((c + d) % n ≡ k)
ahead n c k h =
    let bound : c % n < n = mod-lt c (omega arith) in
    let total : ◌≡◌ {A = ℕ} (c % n + (k + (n - c % n))) (k + n) = omega arith in
    (
      (k + (n - c % n)) % n,
      mod-lt (k + (n - c % n)) (omega arith),
      add-mod-mod c (k + (n - c % n)) n
          ∙ sym (mod-add-mod c n (k + (n - c % n)))
          ∙ ap (λ (t : ℕ). t % n) total
          ∙ add-mod_right k n
          ∙ mod-eq_of_lt h,
    )

module _ {Float Rest Process : Type 0} where
  consider_cases :
      (now : Time) (active : List ℤ) (index : ℕ) (wait : Time) (id : ℤ)
      (entry : Observation Float Rest Process) (later : Time → Choice Float Rest Process)
      → ((w : Time) × (consider now active index wait id (some entry) later ≡ later w))
        ⊎ (consider now active index wait id (some entry) later ≡ chosen index id entry)
  unfolding consider
  consider_cases now active index wait id entry later = elim (Bool-cases (is_active id active)) [
    | inl e ↦ rw e (inl (wait, refl))
    | inr e ↦ elim (Bool-cases (ltb now entry.next)) [
      | inl f ↦ rw (e, f) (inl (min wait (entry.next - now), refl))
      | inr f ↦ rw (e, f) (inr refl)
    ]
  ]

  -- The machine `id` waits for its turn, and every machine has an entry.
  abbrev Waits : ℤ → List ℤ → List ℤ → List (ℤ × Observation Float Rest Process) → Time → Type 0
  Waits id order active entries now =
      Stocked order entries
      × (is_active id active ≡ false)
      × ((entry : Observation Float Rest Process) × (find_entry id entries ≡ some entry)
          × (ltb now entry.next ≡ false))

  -- The choice is at most `d` places on from `offset`, and is `id` at the last.
  abbrev Found : Collector Float Rest Process → ℕ → ℕ → ℤ → Choice Float Rest Process → Type 0
  Found c offset d id choice =
      (o : ℕ) × (other : ℤ) × (entry : Observation Float Rest Process) × (choice
        ≡ chosen ((c.cursor + (offset + o)) % length (all_ids c.order)) other entry)
      × (o ≤ d)
      × (o ≡ d → other ≡ id)

  pub scan_at :
      (rounds offset : ℕ) (now wait : Time) (c : Collector Float Rest Process) (id : ℤ)
      (entry : Observation Float Rest Process)
      → at_index ((c.cursor + offset) % length (all_ids c.order)) (all_ids c.order) ≡ some id
      → find_entry id c.entries ≡ some entry
      → scan (suc rounds) offset now wait c
        ≡ consider now c.active
            ((c.cursor + offset) % length (all_ids c.order))
            wait
            id
            (some entry)
            (λ w. scan rounds (offset + 1) now w c)
  unfolding scan
  scan_at rounds offset now wait c id entry e f = rw (e, scan) (rw (f, scan) refl)

  scan_finds :
      (rounds offset d : ℕ) (now wait : Time) (c : Collector Float Rest Process) (id : ℤ)
      → Waits id (all_ids c.order) c.active c.entries now
      → at_index ((c.cursor + (offset + d)) % length (all_ids c.order)) (all_ids c.order) ≡ some id
      → d < rounds
      → Found c offset d id (scan rounds offset now wait c)
  scan_finds zero offset d now wait c id w e h = absurd (omega arith)
  scan_finds (suc rounds) offset zero now wait c id (s, a, (entry, f, n)) e h =
      let here : at_index ((c.cursor + offset) % length (all_ids c.order)) (all_ids c.order)
          ≡ some id =
        subst
          (λ (k : ℕ).
            at_index ((c.cursor + k) % length (all_ids c.order)) (all_ids c.order) ≡ some id)
          (omega arith) e in
      let at : ◌≡◌ {A = ℕ} offset (offset + 0) = omega arith in
      (
        0,
        id,
        entry,
        rw (scan_at rounds offset now wait c id entry here f) (
            unfold consider in
            rw (a, n)
              (ap (λ (k : ℕ). chosen ((c.cursor + k) % length (all_ids c.order)) id entry) at)),
        omega arith,
        λ z. refl,
      )
  scan_finds (suc rounds) offset (suc d) now wait c id (s, a, w) e h =
      let order = all_ids c.order in
      let index = (c.cursor + offset) % length order in
      let bound : index < length order =
        mod-lt (c.cursor + offset) (omega (arith, index_bounded _ order id e)) in
      let (other, here) = at_index_total index order bound in
      let (entry, f) = Stocked-at index order c.entries other s here in
      let step : ◌≡◌ {A = ℕ} (offset + suc d) (offset + 1 + d) = omega arith in
      elim (consider_cases now c.active index wait other entry
        (λ t. scan rounds (offset + 1) now t c)) [
          | inl (t, passed) ↦
              let (o, next_id, next_entry, q, le, last) =
                scan_finds rounds (offset + 1) d now t c id (s, a, w)
                  (subst (λ (k : ℕ). at_index ((c.cursor + k) % length order) order ≡ some id) step
                    e)
                  (omega arith) in
              let at : ◌≡◌ {A = ℕ} (offset + 1 + o) (offset + suc o) = omega arith in
              (
                suc o,
                next_id,
                next_entry,
                rw (scan_at rounds offset now wait c other entry here f) (
                    passed
                    ∙ q
                    ∙ ap (λ (k : ℕ). chosen ((c.cursor + k) % length order) next_id next_entry) at),
                omega arith,
                λ z. last (omega arith),
              )
          | inr taken ↦
              let at : ◌≡◌ {A = ℕ} offset (offset + 0) = omega arith in
              (
                0,
                other,
                entry,
                rw (scan_at rounds offset now wait c other entry here f)
                    (taken ∙ ap (λ (k : ℕ). chosen ((c.cursor + k) % length order) other entry) at),
                omega arith,
                λ z. absurd (omega arith),
              )
        ]

  -- The choices at a sequence of moments.
  pub choices :
      List (Moment Float Rest Process)
      → Collector Float Rest Process
      → List (Choice Float Rest Process)
  choices [] c = []
  choices (m ∷ ms) c =
      let (choice, c') = next m.now (record c { active = m.active; entries = m.entries }) in
      choice ∷ choices ms c'

  abbrev pub is_turn : ℤ → Choice Float Rest Process → Bool
  is_turn id (chosen i other entry) = int_eq id other
  is_turn id (idle wait) = false
  is_turn id panicked = false

  turn_within :
      (ms : List (Moment Float Rest Process)) (d : ℕ) (c : Collector Float Rest Process) (id : ℤ)
      → at_index ((c.cursor + d) % length (all_ids c.order)) (all_ids c.order) ≡ some id
      → All (λ m. Waits id (all_ids c.order) m.active m.entries m.now) ms
      → d < length ms
      → d < length (all_ids c.order)
      → exists_in (is_turn id) (choices ms c) ≡ true
  unfolding choices next choose take_choice
  turn_within [] d c id e w h b = absurd (omega arith)
  turn_within (m ∷ ms) d c id e w h b =
      let order = all_ids c.order in
      let c' : Collector Float Rest Process = record c { active = m.active; entries = m.entries } in
      let (o, other, entry, q, le, last) =
        scan_finds (length order) 0 d m.now sample_interval c' id w.0
          (subst (λ (t : ℕ). at_index ((c.cursor + t) % length order) order ≡ some id) (omega arith)
            e)
          b in
      let at : ◌≡◌ {A = ℕ} (0 + o) o = omega arith in
      let taken = q ∙ ap (λ (t : ℕ). chosen ((c.cursor + t) % length order) other entry) at in
      elim (Bool-cases (ltb o d)) [
        | inl less ↦
            let rest =
              turn_within ms (d - suc o)
                (take_choice (chosen ((c.cursor + o) % length order) other entry) c') id
                (subst (λ (t : ℕ). at_index t order ≡ some id)
                  (sym (step_on (length order) c.cursor o d (ground arith))) e)
                w.1 (ground arith) (omega arith) in
            rw taken (or_right (int_eq id other) _ rest)
        | inr same ↦ rw (taken, (int_eq_iff id other).1 (sym (last (ground arith)))) refl
      ]

  -- A machine at an index of the order that is due and not being sampled at each of as many
  -- moments as there are machines is chosen at one of them, whatever happens to the other entries:
  -- no machine starves.
  pub next_reaches :
      (ms : List (Moment Float Rest Process)) (k : ℕ) (c : Collector Float Rest Process) (id : ℤ)
      → at_index k (all_ids c.order) ≡ some id
      → All (λ m. Waits id (all_ids c.order) m.active m.entries m.now) ms
      → length (all_ids c.order) ≤ length ms
      → exists_in (is_turn id) (choices ms c) ≡ true
  next_reaches ms k c id e w h =
      let n = length (all_ids c.order) in
      let (d, less, at) = ahead n c.cursor k (index_bounded k (all_ids c.order) id e) in
      turn_within ms d c id (subst (λ (t : ℕ). at_index t (all_ids c.order) ≡ some id) (sym at) e) w
        (omega arith) less
