-- ===== src/Pve/Collector/Listing.antt =====
-- What the readers of the collector see.
use ithiltir_node.Base.{
  ◌+◌, ◌≡◌, ◌↔◌, ltb, if◌then◌else◌, inl, inr, refl, sym, ap, subst, true, none, some, List, [],
  ◌∷◌, ℤ, int_eq, int_eq_iff, Time, ok, is_some, exists_in, Bool-cases, Option-cases, arith,
}
use ithiltir_node.Pve.Snapshot.{Vm, expire_vm}
use ithiltir_node.Pve.Collector.{
  Observation, Collector, all_ids, find_entry, capacity_of, is_current, source_error, shown_vm,
  shown_vms, contains, new_collector,
}
use ithiltir_node.Pve.Collector.Stock.{
  Stocked, has_entry, IsListed, refresh-IsListed, complete-IsListed, take_choice-IsListed,
}
use ithiltir_node.Pve.Collector.Exclusion.{Reach, starts, refreshes, takes, finishes, Reach_keeps}

module _ {Float Rest Process : Type 0} where
  -- The machines are those of the identifiers, one for one: the last reading of each, under the name
  -- and the limits of its newest configuration and with a disk capacity that is not too old, expired
  -- at this time.
  pub Shows : Time → Collector Float Rest Process → List ℤ → List (Vm Float) → Type 0
  Shows now c [] [] = Unit
  Shows now c [] (vm ∷ vms) = ⊥
  Shows now c (id ∷ ids) [] = ⊥
  Shows now c (id ∷ ids) (vm ∷ vms) =
      ((entry : Observation Float Rest Process) × (find_entry id c.entries ≡ some entry)
        × (vm
            ≡ expire_vm now (record entry.vm {
              name = entry.config.vm.name;
              net_rate_limits = entry.config.vm.net_rate_limits;
              disk_capacity =
                  if ltb now (c.metadata_at + 120000000000)
                  then capacity_of (find_entry id c.capacities)
                  else none;
            })))
      × Shows now c ids vms

  shown_total :
      (now : Time) (c : Collector Float Rest Process) (ids : List ℤ)
      → Stocked ids c.entries
      → (vms : List (Vm Float)) × (shown_vms now c ids ≡ some vms) × Shows now c ids vms
  unfolding shown_vms shown_vm Shows
  shown_total now c [] s = ([], refl, tt)
  shown_total now c (id ∷ ids) s = elim (Option-cases (find_entry id c.entries)) [
    | inl e ↦ cc (s.0, ap (λ o. is_some o) e)
    | inr (entry, e) ↦
        let (vms, f, g) = shown_total now c ids s.1 in
        (
          shown_vm now c id entry ∷ vms,
          rw (e, shown_vms) (rw (f, shown_vms) refl),
          ((entry, e, refl), g),
        )
  ]

  Stocked-id :
      (id : ℤ) (ids : List ℤ) (m : List (ℤ × Observation Float Rest Process))
      → Stocked ids m
      → exists_in (int_eq id) ids ≡ true
      → has_entry id m ≡ true
  Stocked-id id [] m s h = ground arith
  Stocked-id id (k ∷ ids) m s h = elim (Bool-cases (int_eq id k)) [
    | inl e ↦ subst (λ i. has_entry i m ≡ true) (sym ((int_eq_iff id k).0 e)) s.0
    | inr e ↦ Stocked-id id ids m s.1 (ground arith)
  ]

  contains_lem :
      (now : Time) (id : ℤ) (c : Collector Float Rest Process)
      → (contains now id c ≡ ok tt)
        ↔ ((source_error now c ≡ none) × (has_entry id c.entries ≡ true))
  unfolding contains source_error
  contains_lem now id c = elim (Bool-cases (is_current now c)) [
    | inl e ↦ elim (Option-cases c.inventory_err) [
      | inl n ↦ elim (Bool-cases (has_entry id c.entries)) [
        | inl f ↦ rw (e, n, f) (λ h. (refl, refl), λ h. refl)
        | inr f ↦ rw (e, n, f) (λ h. ground arith, λ h. ground arith)
      ]
      | inr (m, n) ↦ rw (e, n) (λ h. ground arith, λ h. ground arith)
    ]
    | inr e ↦ elim (Bool-cases (is_some c.inventory_err)) [
      | inl n ↦ rw (e, n) (λ h. ground arith, λ h. ground arith)
      | inr n ↦ rw (e, n) (λ h. ground arith, λ h. ground arith)
    ]
  ]

new-IsListed :
    (Float Rest : Type 0) {Process : Type 0} (new_process : Process)
    → IsListed {Float = Float} {Rest = Rest} (new_collector new_process)
unfolding new_collector find_entry
new-IsListed Float Rest new_process x e = ground arith

module _ {Float Rest Process : Type 0} (new_process : Process) where
  Reach-IsListed :
      {c : Collector Float Rest Process} {jobs : List ℤ} → Reach new_process c jobs → IsListed c
  Reach-IsListed starts = new-IsListed Float Rest new_process
  Reach-IsListed (refreshes {c} found now r) =
      refresh-IsListed new_process found now c (Reach-IsListed r)
  Reach-IsListed (takes {c} now r e) = take_choice-IsListed _ c (Reach-IsListed r)
  Reach-IsListed (finishes {c} stopping id tag vm process started r e) =
      complete-IsListed stopping id tag vm process started c (Reach-IsListed r)

  -- At any time of any run, contains takes a machine exactly when a snapshot taken then has no
  -- error and lists it; and the snapshot reads no nil entry and its machines are those of the list,
  -- one for one.
  pub readers_agree :
      {c : Collector Float Rest Process} {jobs : List ℤ} (now : Time) (id : ℤ)
      → Reach new_process c jobs
      → ((contains now id c ≡ ok tt)
          ↔ ((source_error now c ≡ none) × (exists_in (int_eq id) (all_ids c.order) ≡ true)))
        × ((vms : List (Vm Float)) × (shown_vms now c (all_ids c.order) ≡ some vms)
            × Shows now c (all_ids c.order) vms)
  readers_agree {c} now id r =
      let (s, _, _) = Reach_keeps new_process r in
      let (to, from) = contains_lem now id c in
      (
        (
          λ h. ((to h).0, Reach-IsListed r id (to h).1),
          λ h. from (h.0, Stocked-id id (all_ids c.order) c.entries s h.1),
        ),
        shown_total now c (all_ids c.order) s,
      )
